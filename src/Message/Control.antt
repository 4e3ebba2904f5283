-- ===== src/Message/Control.antt =====
-- The frames of the Control stream.
use xgc2_adapter_runtime_cli.Base.{ℕ, Bytes, Bool, List}
use xgc2_adapter_runtime_cli.Base.Int.{ℤ}
use xgc2_adapter_runtime_cli.Message.Spec.{
  AdapterInstanceSpec, ApplyInstanceSpecResult, CapabilityStatus,
}

pub record Heartbeat : Type 0 where
  pub observed_unix_nanos : ℤ
  pub applied_spec_revision : ℕ
  pub applied_spec_digest : Bytes
  pub ping_nonce : ℕ
  pub capabilities : List CapabilityStatus

pub record DrainStatus : Type 0 where
  pub drained : Bool
  pub in_flight_work : ℕ

-- A `ControlRequest` with no header.
pub data ControlFrame : Type 0 where
  heartbeat : Heartbeat → ControlFrame
  apply_instance_spec_result : ApplyInstanceSpecResult → ControlFrame
  drain_status : DrainStatus → ControlFrame

-- What the Host sends on the Control stream.
pub data ControlResponse : Type 0 where
  instance_spec : AdapterInstanceSpec → ControlResponse
  ping : ℕ → ControlResponse
  drain : ControlResponse
  stop : Bytes → ControlResponse
  host_error : Bytes → ControlResponse
  frame_not_set : ControlResponse
