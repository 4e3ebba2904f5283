-- ===== src/Budget/Links.antt =====
-- The readers and writers of both streams, the calls of the application, and the replacement of the
-- pair, in any order. Rounds of the dispatch workers are not among these steps.
use xgc2_adapter_runtime_cli.Base.{ℕ, Bool, List, [], ◌∷◌, refl}
use xgc2_adapter_runtime_cli.Base.Int.{ℤ}
use xgc2_adapter_runtime_cli.Message.{Environment}
use xgc2_adapter_runtime_cli.Message.Work.{SessionHeader, WorkResponse}
use xgc2_adapter_runtime_cli.Message.Control.{ControlResponse}
use xgc2_adapter_runtime_cli.State.{SessionFence, Impl}
use xgc2_adapter_runtime_cli.Signal.{cancel_all_work_locked}
use xgc2_adapter_runtime_cli.InstanceSpec.Callbacks.{Lifecycle}
use xgc2_adapter_runtime_cli.WorkStream.{attach_work, write_work, read_work}
use xgc2_adapter_runtime_cli.ControlStream.{write_control, read_control}
use xgc2_adapter_runtime_cli.Session.{drop_pair_work, next_pair}
use xgc2_adapter_runtime_cli.Session.Pairs.{IsBetweenPairs, next_pair-InBudget}
use xgc2_adapter_runtime_cli.Application.Rely.{IsKept}
use xgc2_adapter_runtime_cli.Budget.{InBudget}
use xgc2_adapter_runtime_cli.Budget.Specs.{KeepsBudget}
use xgc2_adapter_runtime_cli.Budget.Frames.{
  attach_work-InBudget, write_work-InBudget, read_work-InBudget, write_control-InBudget,
  read_control-InBudget,
}
use xgc2_adapter_runtime_cli.Budget.Steps.{Event, handle, handle-InBudget}

-- A frame of the Host, with its size and header, a round of a writer, with what the transport does,
-- a call of the application, or the next pair, once no callback runs.
pub data Link : Type 0 where
  application_call : Event → Link
  work_read : SessionFence → ℕ → SessionHeader → ℤ → WorkResponse → Link
  work_attached : SessionFence → Bool → Link
  work_written : SessionFence → Bool → Link
  control_read : SessionFence → ℕ → SessionHeader → ℤ → ControlResponse → Link
  control_written : SessionFence → Bool → ℤ → Bool → Link
  pair_replaced : SessionFence → Link

between_pairs : (s : Impl) → InBudget s → IsBetweenPairs (drop_pair_work s)
unfolding drop_pair_work cancel_all_work_locked
between_pairs s (words, control, work, dispatch, replay, table) = record {
  words = words;
  replay = replay;
  streams = refl;
}

module _ ⦃w : Environment⦄ where
  unfoldable pub step : Lifecycle → Link → Impl → Impl
  unfolding handle
  step app (Link.application_call event) s = handle event s
  step app (Link.work_read fence bytes header now response) s =
      (read_work fence bytes header now response s).1
  step app (Link.work_attached fence accepted) s = (attach_work fence accepted (λ t. t) s).1
  step app (Link.work_written fence accepted) s = (write_work fence accepted s).1
  step app (Link.control_read fence bytes header now response) s =
      (read_control app fence bytes header now response s).1
  step app (Link.control_written fence due now accepted) s =
      (write_control fence due now accepted s).1
  step app (Link.pair_replaced fence) s = next_pair fence (λ t. t) s

  unfoldable pub run_session : Lifecycle → List Link → Impl → Impl
  unfolding step
  run_session app [] s = s
  run_session app (link ∷ links) s = run_session app links (step app link s)

  step-InBudget :
      (app : Lifecycle) (link : Link) (s : Impl)
      → KeepsBudget app
      → IsKept IsBetweenPairs
      → InBudget s
      → InBudget (step app link s)
  unfolding step
  step-InBudget app (Link.application_call event) s keeps between b =
      handle-InBudget event s keeps.calls b
  step-InBudget app (Link.work_read fence bytes header now response) s keeps between b =
      let k = read_work-InBudget fence bytes header now response s keeps.calls b in k.kept
  step-InBudget app (Link.work_attached fence accepted) s keeps between b =
      let k = attach_work-InBudget fence accepted (λ t. t) s (λ t c. c) b in k.kept
  step-InBudget app (Link.work_written fence accepted) s keeps between b =
      let k = write_work-InBudget fence accepted s b in k.kept
  step-InBudget app (Link.control_read fence bytes header now response) s keeps between b =
      let k = read_control-InBudget app fence bytes header now response s keeps b in k.kept
  step-InBudget app (Link.control_written fence due now accepted) s keeps between b =
      let k = write_control-InBudget fence due now accepted s b in k.kept
  step-InBudget app (Link.pair_replaced fence) s keeps between b =
      next_pair-InBudget fence (λ t. t) s between (between_pairs s b)

  -- With callbacks of the application during which the accounts are kept, also between two pairs: from a state whose accounts are
  -- in order, any sequence of frames of the Host on either stream, rounds of the two writers, calls of the
  -- application and replacements of the connection pair keeps them so: every byte counter is the sum over
  -- its queue or table, and no queue or table exceeds its bounds.
  pub run_session-InBudget :
      (app : Lifecycle) (links : List Link) (s : Impl)
      → KeepsBudget app
      → IsKept IsBetweenPairs
      → InBudget s
      → InBudget (run_session app links s)
  unfolding run_session
  run_session-InBudget app [] s keeps between b = b
  run_session-InBudget app (link ∷ links) s keeps between b =
      run_session-InBudget app links (step app link s) keeps between
        (step-InBudget app link s keeps between b)
