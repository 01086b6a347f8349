-- ===== src/Worker/Context.antt =====
-- The inputs of an investigation: domain/control_context.py and
-- ports/investigation/exception_source.py of the worker.
use backend_engineering_note.Prelude.{ℕ, ℤ, String, Option, List, [], ◌∷◌}
use backend_engineering_note.Platform.Rows.{Mapping}

pub record DecodeValue : Type 0 where
  pub code : String
  pub name : String
  pub description : Option String

pub record ControlManual : Type 0 where
  pub control_name : String
  pub config_md5 : String
  pub content : String

pub record ControlContext : Type 0 where
  pub generation : ℕ
  pub positions : ControlManual
  pub reference : ControlManual
  pub reason_codes : List DecodeValue
  pub resolution_codes : List DecodeValue
  pub positions_rec_schema : String
  pub positions_tenant_schema : String
  pub reference_rec_schema : String
  pub reference_tenant_schema : String
  pub reason_code_feature_id : String
  pub resolution_code_feature_id : String

-- `tuple(value.code for value in values)`
unfoldable pub codes_of : List DecodeValue → List String
codes_of [] = []
codes_of (v ∷ vs) = v.code ∷ codes_of vs

pub record LinkedRecord : Type 0 where
  pub pk : List ℕ
  pub agent_view : Mapping

pub record ExceptionData : Type 0 where
  pub exception_pk : List ℕ
  pub exception_version : ℤ
  pub exception_view : Mapping
  pub records : List LinkedRecord
