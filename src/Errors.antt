-- ===== src/Errors.antt =====
-- What the program throws: one constructor for each class that a handler tells apart by
-- `instanceof`, with the message. `new Error(...)` is `plain`.
use verify_agent.Prelude.{String}

-- `VerificationPipelineErrorCode`, of packages/engine/src/pipeline.ts
pub data PipelineErrorCode : Type 0 where
  detection_failed no_applicable_check dependency_provisioning_failed execution_failed :
      PipelineErrorCode

pub data Error : Type 0 where
  plain : String → Error
  domain_validation : String → Error
  invalid_source_reference : String → Error
  authentication : String → Error
  payload : String → Error
  unsupported_event : String → Error
  replay : String → Error
  configuration : String → Error
  runtime : String → Error
  publication : String → Error
  stale_result : String → Error
  pipeline : PipelineErrorCode → String → Error
