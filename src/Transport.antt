-- ===== src/Transport.antt =====
-- src/control.cpp, src/work.cpp and src/session.cpp: what the Control and the Work stream have in
-- common. What the transport does is an argument: the frames that it reads, whether it writes a
-- frame, and its final status.
use xgc2_adapter_runtime_cli.Base.{
  Bool, true, false, not, ◌&&◌, ◌||◌, Bytes, text, same, is_empty, List, [], ◌∷◌, ◌++◌,
  if◌then◌else◌,
}
use xgc2_adapter_runtime_cli.Message.Work.{SessionHeader}
use xgc2_adapter_runtime_cli.State.{SessionFence, Impl}
use xgc2_adapter_runtime_cli.Signal.{signal_session_failure, signal_terminal_session_failure}

-- The code of a gRPC status, as far as the client tells codes apart.
pub data StatusCode : Type 0 where
  ok failed_precondition permission_denied unauthenticated aborted other : StatusCode

unfoldable pub is_terminal_session_status : StatusCode → Bool
is_terminal_session_status StatusCode.failed_precondition = true
is_terminal_session_status StatusCode.permission_denied = true
is_terminal_session_status StatusCode.unauthenticated = true
is_terminal_session_status StatusCode.aborted = true
is_terminal_session_status _ = false

abbrev pub is_ok : StatusCode → Bool
is_ok StatusCode.ok = true
is_ok _ = false

unfoldable pub current_session_is : Bytes → Impl → Bool
current_session_is session_id s = same s.session_id session_id && not s.session_failed

-- The end of a stream's loop, with the names that the two streams give it.
unfoldable pub finish_stream : Bytes → SessionFence → StatusCode → Bytes → Impl → Impl
finish_stream name fence code message s =
    if not s.stop_requested && is_terminal_session_status code
    then signal_terminal_session_failure fence.session_id
        (name
          ++ text " attachment was rejected: "
          ++ (if is_empty message then text "terminal gRPC status" else message))
        s
    else if not s.stop_requested && current_session_is fence.session_id s
    then signal_session_failure fence.session_id
        (if is_ok code
          then name ++ text " stream closed"
          else name ++ text " stream failed: " ++ message)
        s
    else s

-- A writer ends: stopped, failed, or of another session.
abbrev pub is_over : SessionFence → Impl → Bool
is_over fence s = s.stop_requested || s.session_failed || not (same s.session_id fence.session_id)

-- What a writer hands to the transport.
pub record Written (F : Type 0) : Type 0 where
  pub header : SessionHeader
  pub frame : F

-- What a writer does with the state at its front.
pub data WriterStep (F : Type 0) : Type 0 where
  finished waiting : WriterStep F
  write : Written F → WriterStep F

abbrev pub frames_of : {F : Type 0} → WriterStep F → List (Written F)
frames_of (WriterStep.write x) = x ∷ []
frames_of _ = []
