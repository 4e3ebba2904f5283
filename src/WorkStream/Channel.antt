-- ===== src/WorkStream/Channel.antt =====
-- The bounded Work queue with its writer is a channel: frames leave it in the order in which they were
-- accepted, none is lost and none is invented.
use xgc2_adapter_runtime_cli.Base.{
  ◌≡◌, refl, sym, ap, ◌∙◌, List, [], ◌∷◌, ◌++◌, map, append-nil, append_assoc, if_both,
  if◌then◌else◌,
}
use mathlib.Core.List.{map-append}
use xgc2_adapter_runtime_cli.Message.{Environment}
use xgc2_adapter_runtime_cli.Message.Work.{WorkFrame}
use xgc2_adapter_runtime_cli.State.{SessionFence, QueuedWorkFrame, Impl}
use xgc2_adapter_runtime_cli.Queue.{queue_work_locked}
use xgc2_adapter_runtime_cli.Transport.{WriterStep, frames_of, is_over}
use xgc2_adapter_runtime_cli.WorkStream.{stamp_work, pop_work, take_work_frame}
use xgc2_adapter_runtime_cli.Budget.Queues.{queue_work_cases}

-- The contents of the channel.
abbrev pub contents : Impl → List WorkFrame
contents s = map (λ q. q.request) s.work_queue

-- A frame is offered, or the writer takes one.
pub data Use : Type 0 where
  offer : WorkFrame → Use
  take : SessionFence → Use

module _ ⦃w : Environment⦄ where
  abbrev pub after_use : Use → Impl → Impl
  after_use (Use.offer frame) s = (queue_work_locked frame s).1
  after_use (Use.take fence) s = (take_work_frame fence s).1

  abbrev pub accepted_by : Use → Impl → List WorkFrame
  accepted_by (Use.offer frame) s = if (queue_work_locked frame s).0 then frame ∷ [] else []
  accepted_by (Use.take fence) s = []

  abbrev pub sent_by : Use → Impl → List WorkFrame
  sent_by (Use.offer frame) s = []
  sent_by (Use.take fence) s = map (λ x. x.frame) (frames_of (take_work_frame fence s).0)

  unfoldable pub run_uses : List Use → Impl → Impl
  run_uses [] s = s
  run_uses (u ∷ us) s = run_uses us (after_use u s)

  unfoldable pub accepted_frames : List Use → Impl → List WorkFrame
  accepted_frames [] s = []
  accepted_frames (u ∷ us) s = accepted_by u s ++ accepted_frames us (after_use u s)

  unfoldable pub sent_frames : List Use → Impl → List WorkFrame
  sent_frames [] s = []
  sent_frames (u ∷ us) s = sent_by u s ++ sent_frames us (after_use u s)

  offered :
      (frame : WorkFrame) (s : Impl)
      → contents (queue_work_locked frame s).1
        ≡ contents s ++ (if (queue_work_locked frame s).0 then frame ∷ [] else [])
  offered frame s =
      queue_work_cases (λ r. contents r.1 ≡ contents s ++ (if r.0 then frame ∷ [] else [])) frame s
        (λ n. sym (append-nil (contents s))) (λ room. map-append (λ q. q.request) s.work_queue _)

popped :
    (fence : SessionFence) (queue : List QueuedWorkFrame) (s : Impl)
    → s.work_queue ≡ queue
    → map (λ x. x.frame) (frames_of (pop_work fence queue s).0)
        ++ contents (pop_work fence queue s).1
      ≡ map (λ (q : QueuedWorkFrame). q.request) queue
unfolding pop_work stamp_work
popped fence [] s e = ap (map (λ (q : QueuedWorkFrame). q.request)) e
popped fence (front ∷ rest) s e = refl

taken :
    (fence : SessionFence) (s : Impl)
    → map (λ x. x.frame) (frames_of (take_work_frame fence s).0)
        ++ contents (take_work_frame fence s).1
      ≡ contents s
unfolding take_work_frame
taken fence s =
    if_both
      (λ (r : WriterStep WorkFrame × Impl).
        map (λ x. x.frame) (frames_of r.0) ++ contents r.1 ≡ contents s)
      (is_over fence s) refl (popped fence s.work_queue s refl)

module _ ⦃w : Environment⦄ where
  -- Over any sequence of frames that are offered to the Work queue and rounds of its writer: the frames that
  -- the writer took, followed by those still in the queue, are the frames that were in the queue at first,
  -- followed by those that were accepted, in the same order.
  pub channel_lem :
      (us : List Use) (s : Impl)
      → sent_frames us s ++ contents (run_uses us s) ≡ contents s ++ accepted_frames us s
  unfolding sent_frames run_uses accepted_frames
  channel_lem [] s = sym (append-nil (contents s))
  channel_lem (Use.offer frame ∷ us) s =
      let t = (queue_work_locked frame s).1 in
      channel_lem us t
      ∙ ap (λ c. c ++ accepted_frames us t) (offered frame s)
      ∙ append_assoc (contents s) _ (accepted_frames us t)
  channel_lem (Use.take fence ∷ us) s =
      let t = (take_work_frame fence s).1 in
      let out = map (λ x. x.frame) (frames_of (take_work_frame fence s).0) in
      append_assoc out (sent_frames us t) (contents (run_uses us t))
      ∙ ap (λ c. out ++ c) (channel_lem us t)
      ∙ sym (append_assoc out (contents t) (accepted_frames us t))
      ∙ ap (λ c. c ++ accepted_frames us t) (taken fence s)
