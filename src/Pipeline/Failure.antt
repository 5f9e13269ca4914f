-- ===== src/Pipeline/Failure.antt =====
-- What a process that fails does to the time slot.
use aloe.Pipeline.{Pipeline}
