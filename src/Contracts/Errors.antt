-- ===== src/Contracts/Errors.antt =====
-- packages/contracts/src/index.ts: GENERATION_ERROR_CODES.
pub data ErrorCode : Type 0 where
  analysis_timeout cancelled writer_ownership_lost generation_capacity_unavailable : ErrorCode
  empty_llm_response response_language_mismatch context_budget_exceeded : ErrorCode
  analysis_protocol_error analysis_no_progress max_agent_iterations_exceeded : ErrorCode
  llm_request_failed tool_execution_failed invalid_tool_arguments : ErrorCode
  invalid_state_transition artifact_result_too_large artifact_not_found : ErrorCode
  artifact_access_denied artifact_field_invalid sql_security_rejected : ErrorCode
  sql_validation_failed datasource_access_changed worker_lost internal_error : ErrorCode

pub ErrorCode-discrete : Discrete ErrorCode
ErrorCode-discrete = hlevel
