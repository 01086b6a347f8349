-- ===== src/Worker/Errors.antt =====
-- The failures of an investigation: domain/investigation.py of the worker, the errors that its ports
-- and application/resolve_control_context.py declare with their `error_code`s, and the translation at
-- the end of `InvestigateException.execute` (application/investigate_exception.py).
use backend_engineering_note.Prelude.{String}

pub data Failure : Type 0 where
  -- TransientInvestigationError and PermanentInvestigationError, with error code and message
  transient permanent : String → String → Failure
  -- InvestigationOwnershipLostError
  ownership_lost : Failure
  -- any other exception
  unexpected : String → Failure

-- `_TRANSIENT_FAILURES`
pub data TransientCause : Type 0 where
  analysis_unavailable config_generation_unavailable config_summarization_unavailable
        control_config_unavailable control_context_cache_unavailable control_context_rebuild_timeout
        ctc_write_back_unavailable exception_source_unavailable manual_store_unavailable
        report_store_unavailable investigation_store_unavailable :
      TransientCause

-- `_PERMANENT_FAILURES`
pub data PermanentCause : Type 0 where
  analysis_failed config_summarization_failed exception_not_found invalid_analysis_output
        invalid_config_summary invalid_control_config no_linked_records run_limit_exceeded
        vocabulary_unavailable :
      PermanentCause

-- `getattr(exc, "error_code", …)`
unfoldable pub transient_error_code : TransientCause → String
transient_error_code analysis_unavailable = "analysis_unavailable"
transient_error_code config_generation_unavailable = "platform_database_unavailable"
transient_error_code config_summarization_unavailable = "config_summarization_unavailable"
transient_error_code control_config_unavailable = "control_configuration_unavailable"
transient_error_code control_context_cache_unavailable = "control_context_cache_unavailable"
transient_error_code control_context_rebuild_timeout = "control_context_cache_unavailable"
transient_error_code ctc_write_back_unavailable = "ctc_write_back_unavailable"
transient_error_code exception_source_unavailable = "ctc_database_unavailable"
transient_error_code manual_store_unavailable = "manual_store_unavailable"
transient_error_code report_store_unavailable = "report_store_unavailable"
transient_error_code investigation_store_unavailable = "platform_database_unavailable"

-- `_permanent_error_code`
unfoldable pub permanent_error_code : PermanentCause → String
permanent_error_code exception_not_found = "exception_not_found"
permanent_error_code no_linked_records = "no_linked_records"
permanent_error_code analysis_failed = "analysis_failed"
permanent_error_code config_summarization_failed = "config_summarization_failed"
permanent_error_code invalid_analysis_output = "invalid_analysis_output"
permanent_error_code run_limit_exceeded = "run_limit_exceeded"
permanent_error_code vocabulary_unavailable = "vocabulary_unavailable"
permanent_error_code invalid_config_summary = "invalid_control_configuration"
permanent_error_code invalid_control_config = "invalid_control_configuration"

-- What a step of the investigation may raise, with its message.
pub data Exception : Type 0 where
  failure : Failure → Exception
  unavailable : TransientCause → String → Exception
  rejected : PermanentCause → String → Exception

-- the `except` clauses of `execute`
unfoldable pub translate : Exception → Failure
unfolding transient_error_code permanent_error_code
translate (failure f) = f
translate (unavailable cause message) = Failure.transient (transient_error_code cause) message
translate (rejected cause message) = Failure.permanent (permanent_error_code cause) message
