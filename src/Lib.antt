-- ===== src/Lib.antt =====
-- Verification of the C++ client of the adapter Runtime Link (xgc2-adapter-runtime-client-cpp).
--
-- The client owns one session with a Host: a Control and a Work stream, each with a bounded outbound
-- queue; a dispatch queue of admitted Work with its workers; a table that retains the terminal of each
-- Work until the Host acknowledges it; and source streams with credit, whose ends are retained as
-- tombstones. One mutex guards this state, so that each section under the lock is a function on it.
--
-- State holds the state, `Impl` of src/client_impl.hpp, with the types inside it. The other files follow
-- the code:
--   Message         the protobuf messages, and the interface Environment of what the generated code
--                   computes and of what callbacks without a result do
--   Text            validators of src/internal.hpp
--   Digest          src/digest.cpp: SHA-256 and the textual digest of a terminal
--   Deadline        times: NormalizeDeadline and NextAlignedHeartbeatDeadline of src/internal.hpp, and
--                   NextBackoff of src/session_state.cpp
--   Queue, Replay, Endpoint
--                   src/queue.cpp: headers, outbound queues, terminal replay, endpoint lookup
--   Signal          CancelAllWorkLocked of src/spec.cpp, the failure signals of src/session.cpp
--   Source, Credit, Acknowledge, Cancel, Drain
--                   src/stream.cpp: streams, and the messages of the Host about them
--   Admission, SourceAdmission
--                   src/dispatch.cpp: EnqueueDispatch and EnqueueSourceOpen
--   Validate, Handlers, Worker
--                   src/dispatch.cpp: the context of a Work, its handlers, one round of DispatchLoop
--   Frames, Opening src/source_dispatch.cpp: the frames of rejections, and HandleSourceOpen
--   Register        src/session.cpp: the checks of Register
--   Session         src/session.cpp: a session, its connection pairs, and what passes between them
--   Supervisor      src/session.cpp and src/session_state.cpp: SupervisorLoop, EnterSessionLost, Stop
--   Application, Contract, InstanceSpec
--                   src/spec.cpp: deactivation, the keys of contracts, ValidateInstanceSpec and
--                   ApplyInstanceSpec
--   RuntimeTarget, Configuration
--                   ValidateRuntimeTarget of src/internal.hpp, and src/bootstrap.cpp: ValidateConfig
--   Transport, WorkStream, ControlStream
--                   src/work.cpp and src/control.cpp: the bodies of the readers and writers
--   Budget          the accounts of all queues and tables under the operations, but for HandleSourceOpen
--                   and InstallSession, and between the two sections of a pair's replacement
--   Examples        a small client on which the theorems are applied
-- Base holds what all files share: tests, lists, byte strings, machine words, maps and integers.
--
-- Conventions. An operation takes the state last and returns the new one, paired with its result. A
-- field with its trailing underscore, or an accessor, keeps its name without it. `std::map` is an
-- association list in the order of its keys; `std::string` is a list of bytes; `size_t` and `uint64_t`
-- wrap at 2 ^ 64 where the code does not rule it out. A shared `CancellationState` is a number, and
-- `requested` tells which of them are set. Callbacks of the application are functions of the state, which
-- may change while they run; of `session_lost` and `stop_requested` only the call is recorded. The
-- clocks are arguments: one reading stands for the readings of a round. What the transport, the Host,
-- and the other threads do while the lock is free is an argument too.
-- All recursion is structural. The loop of SHA-256's `Update` has the length of its input as fuel, of
-- which each round uses at least one byte; the loop over the work tokens has their number, and each
-- round takes out one; `to_string` has the number itself, of which a digit takes a tenth; the
-- supervisor has any fuel, and one more than the reconnects that are left is enough where no pair
-- becomes ready.
--
-- Not modelled: gRPC calls and contexts, threads and condition variables, the wait of Start for
-- readiness, the snapshots of the session, the reading of the configuration and the accessors in
-- src/client.cpp; logging.
pub mod Application
pub mod Base
pub mod Supervisor
pub mod Text
pub mod Digest
pub mod State
pub mod Queue
pub mod Deadline
pub mod Session
pub mod Signal
pub mod RuntimeTarget
pub mod Register
pub mod Replay
pub mod Drain
pub mod Endpoint
pub mod Source
pub mod Configuration
pub mod Contract
pub mod ControlStream
pub mod Credit
pub mod Acknowledge
pub mod Cancel
pub mod Frames
pub mod Admission
pub mod Transport
pub mod Validate
pub mod Handlers
pub mod InstanceSpec
pub mod Opening
pub mod SourceAdmission
pub mod WorkStream
pub mod Worker
pub mod Budget
pub mod Message
pub mod Examples
