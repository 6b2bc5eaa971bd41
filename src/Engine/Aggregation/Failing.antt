-- ===== src/Engine/Aggregation/Failing.antt =====
-- When a verification does not pass: the path from a result to a finding to the policy's outcome.
use Prim.Native.String.{◌++◌ as concat}
use verify_agent.Prelude.{String, ◌++◌}
use verify_agent.Json.{Json}
use verify_agent.Domain.Types.{Evidence}
