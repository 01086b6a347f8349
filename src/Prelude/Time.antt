-- ===== src/Prelude/Time.antt =====
-- Timestamps are microseconds since the epoch, the resolution of Python's `datetime`.
use Prim.Native.Nat.{ℕ, ◌*◌}

abbrev pub second : ℕ
second = 1000000

abbrev pub minute : ℕ
minute = 60 * second

abbrev pub day : ℕ
day = 24 * 60 * minute
