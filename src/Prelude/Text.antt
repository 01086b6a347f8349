-- ===== src/Prelude/Text.antt =====
-- Operations on texts, character by character.
use Prim.Native.Nat.{ℕ, zero, suc, ◌+◌, ◌≤◌}
use Prim.Native.String.{String, compare}
use text.Mathlib.Text.{is_lt}
use Prim.Native.Char.{Char, code}
use mathlib.Core.Bool.{Bool, true, false, ◌&&◌, ◌||◌}
use mathlib.Core.Path.{◌≡◌, refl}
use native.Mathlib.Omega.{arith}
use backend_engineering_note.Prelude.Tests.{leb, ◌==◌, if◌then◌else◌}

-- Python's `len` of a text
abbrev pub text_length : String → ℕ
text_length String.[] = 0
text_length (String.◌∷◌ c s) = suc (text_length s)

-- Python's slice `text[:n]`
abbrev pub take_text : ℕ → String → String
take_text zero s = ""
take_text (suc n) String.[] = ""
take_text (suc n) (String.◌∷◌ c s) = String.◌∷◌ c (take_text n s)

pub text_length-take_text_le : (n : ℕ) (s : String) → text_length (take_text n s) ≤ n
text_length-take_text_le zero s = omega arith
text_length-take_text_le (suc n) String.[] = omega arith
text_length-take_text_le (suc n) (String.◌∷◌ c s) = omega (arith, text_length-take_text_le n s)

pub take_text-of_length_le : (n : ℕ) (s : String) → text_length s ≤ n → take_text n s ≡ s
take_text-of_length_le zero String.[] h = refl
take_text-of_length_le zero (String.◌∷◌ c s) h = absurd (omega arith)
take_text-of_length_le (suc n) String.[] h = refl
take_text-of_length_le (suc n) (String.◌∷◌ c s) h =
    λ i. String.◌∷◌ c (take_text-of_length_le n s (omega arith) i)

-- the text that `a` and then `b` make
abbrev pub append_text : String → String → String
append_text String.[] b = b
append_text (String.◌∷◌ c a) b = String.◌∷◌ c (append_text a b)

pub text_length-append_text :
    (a b : String) → text_length (append_text a b) ≡ text_length a + text_length b
text_length-append_text String.[] b = omega arith
text_length-append_text (String.◌∷◌ c a) b = omega (arith, text_length-append_text a b)

abbrev pub is_empty : String → Bool
is_empty String.[] = true
is_empty (String.◌∷◌ c s) = false

-- the code points of Unicode that `str.isspace` accepts
abbrev pub is_space : ℕ → Bool
is_space c =
    (leb 9 c && leb c 13)
    || (leb 28 c && leb c 32)
    || (c == 133)
    || (c == 160)
    || (c == 5760)
    || (leb 8192 c && leb c 8202)
    || (c == 8232)
    || (c == 8233)
    || (c == 8239)
    || (c == 8287)
    || (c == 12288)

-- `str.rstrip()`
unfoldable pub rstrip : String → String
rstrip String.[] = ""
rstrip (String.◌∷◌ c s) =
    let rest = rstrip s in if is_empty rest && is_space (code c) then "" else String.◌∷◌ c rest

-- `str.lstrip()`
unfoldable pub lstrip : String → String
lstrip String.[] = ""
lstrip (String.◌∷◌ c s) = let rest = lstrip s in if is_space (code c) then rest else String.◌∷◌ c s

-- `str.strip()`
unfoldable pub strip : String → String
unfolding rstrip lstrip
strip s = lstrip (rstrip s)

space_or_char :
    (b : Bool) (c : Char) (rest : String) (n : ℕ)
    → text_length rest ≤ n
    → text_length (if b then "" else String.◌∷◌ c rest) ≤ suc n
space_or_char true c rest n h = omega arith
space_or_char false c rest n h = omega arith

pub text_length-rstrip_le : (s : String) → text_length (rstrip s) ≤ text_length s
unfolding rstrip
text_length-rstrip_le String.[] = omega arith
text_length-rstrip_le (String.◌∷◌ c s) =
    space_or_char (is_empty (rstrip s) && is_space (code c)) c (rstrip s) (text_length s)
      (text_length-rstrip_le s)

-- Python's `s < t`, by code points
abbrev pub str_lt : String → String → Bool
str_lt s t = is_lt (compare s t)
