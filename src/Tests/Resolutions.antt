-- ===== src/Tests/Resolutions.antt =====
-- The theorem on resolution, where another worker holds the rebuild for two rounds.
use backend_engineering_note.Prelude.{
  ◌+◌, ◌*◌, ◌≡◌, refl, arith, true, false, none, some, [], ◌∷◌, ltb,
}
use backend_engineering_note.Worker.Context.{ControlContext, DecodeValue}
use backend_engineering_note.Worker.Exec.{Result, ok}
use backend_engineering_note.Worker.Resolve.{
  ControlContextCachePolicy, is_policy, Cache, Codec, resolve,
}
use backend_engineering_note.Worker.Resolve.Build.{ControlConfiguration, BuildServices, build}
use backend_engineering_note.Worker.Resolve.Rounds.{Holds}
use backend_engineering_note.Worker.Resolve.Ends.{IsAwaited, resolve_total}
use backend_engineering_note.Tests.Attempts.{context}

abbrev policy : ControlContextCachePolicy
policy = record { rebuild_lease = 3; rebuild_wait = 10; poll_interval = 2 }

-- The third round gets the lease.
abbrev cache : Cache
cache = record {
  get = λ n. ok none;
  try_acquire_rebuild = λ n. ok (ltb 1 n);
  get_again = λ n. ok none;
  put = λ n payload. ok tt;
  release_rebuild = λ n. ok tt;
  monotonic = λ n. 100 + 2 * n;
}

abbrev codec : Codec
codec = record { dump_json = λ c. "{}"; validate_json = λ t. some context }

abbrev reason : DecodeValue
reason = record { code = "TIMING"; name = "Timing"; description = none }

abbrev config : ControlConfiguration
config = record {
  md5 = "d41d8";
  xml = "<control/>";
  rec_schema_name = "positions";
  tenant_schema_name = "tenant";
  editable_feature_ids = ("ExceptionReasonCode", "11") ∷ ("ExceptionResolutionCode", "12") ∷ [];
}

abbrev services : BuildServices
services = record {
  fetch_configuration = λ control. ok config;
  fetch_decode_sets = ok (
      record { name = "ReasonCodes"; values = reason ∷ [] }
      ∷ record { name = "ResolutionCodes"; values = reason ∷ [] }
      ∷ []);
  get_manual = λ control md5. ok none;
  summarize = λ control xml. ok "manual";
  put_manual = λ control md5 content. ok tt;
  second_first = λ n. false;
}

cache-IsAwaited : IsAwaited cache policy 110
cache-IsAwaited n = omega arith

policy_valid : is_policy policy ≡ true
unfolding is_policy
policy_valid = refl

resolve_total_example :
    (r : Result ControlContext) × (resolve codec cache policy
        (build services "positions" "reference")
        100
        11
        (ok 5)
      ≡ some r)
    × Holds (λ c. ok 5 ≡ ok c.generation) r
resolve_total_example =
    resolve_total codec cache policy services "positions" "reference" 100 11 (ok 5) policy_valid
      (omega arith) cache-IsAwaited (omega arith)
