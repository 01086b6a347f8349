-- ===== src/Worker/Resolve/Build.antt =====
-- What a resolution builds if the cache does not have it: `_build` and its helpers.
use backend_engineering_note.Prelude.{
  ℕ, String, Bool, true, false, Option, none, some, List, [], ◌∷◌, if◌then◌else◌, str_eq, is_empty,
}
use backend_engineering_note.Worker.Context.{ControlContext, ControlManual, DecodeValue}
use backend_engineering_note.Worker.Errors.{
  Exception, rejected, vocabulary_unavailable, invalid_control_config,
}
use backend_engineering_note.Worker.Exec.{Result, ok, raised}
use backend_engineering_note.Worker.Resolve.{and_then}

pub record ControlConfiguration : Type 0 where
  pub md5 : String
  pub xml : String
  pub rec_schema_name : String
  pub tenant_schema_name : String
  pub editable_feature_ids : List (String × String)

pub record DecodeSet : Type 0 where
  pub name : String
  pub values : List DecodeValue

module _ {A B : Type 0} where
  -- `asyncio.gather` of two tasks; the second raises earlier if `second` is true
  abbrev pub gather : Bool → Result A → Result B → Result (A × B)
  gather second (ok a) (ok b) = ok (a, b)
  gather second (raised e) (ok b) = raised e
  gather second (ok a) (raised f) = raised f
  gather true (raised e) (raised f) = raised f
  gather false (raised e) (raised f) = raised e

-- `dict(pairs).get(name)`: the last of several values
unfoldable pub last_value : {A : Type 0} → String → List (String × A) → Option A
last_value name [] = none
last_value name ((key, value) ∷ rest) = elim (last_value name rest) [
  | some later ↦ some later
  | none ↦ if str_eq key name then some value else none
]

abbrev pub named : List DecodeSet → List (String × List DecodeValue)
named [] = []
named (d ∷ ds) = (d.name, d.values) ∷ named ds

abbrev missing_vocabulary : Exception
missing_vocabulary = rejected vocabulary_unavailable "A required CTC decode set is missing or empty"

abbrev pub nonempty : Option (List DecodeValue) → Result (List DecodeValue)
nonempty none = raised missing_vocabulary
nonempty (some []) = raised missing_vocabulary
nonempty (some (v ∷ vs)) = ok (v ∷ vs)

-- `_required_vocabulary`
unfoldable pub required_vocabulary : List DecodeSet → String → Result (List DecodeValue)
required_vocabulary sets name = nonempty (last_value name (named sets))

abbrev missing_feature : Exception
missing_feature = rejected invalid_control_config "A required editable CTC feature is missing"

abbrev pub identifier_of : Option String → Result String
identifier_of none = raised missing_feature
identifier_of (some t) = if is_empty t then raised missing_feature else ok t

-- `_required_feature_identifier`
unfoldable pub required_feature_identifier : List (String × String) → String → Result String
required_feature_identifier features name = identifier_of (last_value name features)

-- What a build calls.
pub record BuildServices : Type 0 where
  pub fetch_configuration : String → Result ControlConfiguration
  pub fetch_decode_sets : Result (List DecodeSet)
  pub get_manual : String → String → Result (Option String)
  pub summarize : String → String → Result String
  pub put_manual : String → String → String → Result (Unit {0})
  -- which of two failures is seen
  pub second_first : ℕ → Bool

module _ (services : BuildServices) where
  abbrev manual_of : String → String → String → ControlManual
  manual_of control_name md5 content = record {
    control_name = control_name;
    config_md5 = md5;
    content = content;
  }

  abbrev content_or_new : String → String → String → Option String → Result String
  content_or_new control_name md5 xml (some content) = ok content
  content_or_new control_name md5 xml none =
      and_then (services.summarize control_name xml)
        λ content. and_then (services.put_manual control_name md5 content) λ _. ok content

  -- `_resolve_manual`
  unfoldable pub resolve_manual : String → ControlConfiguration → Result ControlManual
  resolve_manual control_name config =
      and_then (services.get_manual control_name config.md5) λ stored.
        and_then (content_or_new control_name config.md5 config.xml stored)
          λ content. ok (manual_of control_name config.md5 content)

  -- the rest of `_build` once everything was fetched
  unfoldable pub assemble :
      ℕ
      → ControlConfiguration
      → ControlConfiguration
      → List DecodeSet
      → ControlManual
      → ControlManual
      → Result ControlContext
  assemble generation positions_config reference_config sets positions reference =
      and_then (required_vocabulary sets "ReasonCodes") λ reasons.
        and_then (required_vocabulary sets "ResolutionCodes") λ resolutions.
          and_then
            (required_feature_identifier positions_config.editable_feature_ids
              "ExceptionReasonCode")
            λ reason_feature.
              and_then
                (required_feature_identifier positions_config.editable_feature_ids
                  "ExceptionResolutionCode")
                λ resolution_feature. ok (record {
                  generation = generation;
                  positions = positions;
                  reference = reference;
                  reason_codes = reasons;
                  resolution_codes = resolutions;
                  positions_rec_schema = positions_config.rec_schema_name;
                  positions_tenant_schema = positions_config.tenant_schema_name;
                  reference_rec_schema = reference_config.rec_schema_name;
                  reference_tenant_schema = reference_config.tenant_schema_name;
                  reason_code_feature_id = reason_feature;
                  resolution_code_feature_id = resolution_feature;
                })

  -- `_build`
  unfoldable pub build : String → String → ℕ → Result ControlContext
  build positions_control reference_control generation =
      and_then
        (gather (services.second_first 0)
          (gather (services.second_first 1) (services.fetch_configuration positions_control)
            (services.fetch_configuration reference_control))
          services.fetch_decode_sets)
        λ ((positions_config, reference_config), sets).
          and_then
            (gather (services.second_first 2) (resolve_manual positions_control positions_config)
              (resolve_manual reference_control reference_config))
            λ (positions, reference).
              assemble generation positions_config reference_config sets positions reference
