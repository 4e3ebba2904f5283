-- ===== src/WorkStream/Sequence.antt =====
-- The headers that the Work writer stamps: their sequences count up by one, so that the check of
-- headers, applied at the other end, accepts every one of them.
use mathlib.Core.Path.{ap₂}
use xgc2_adapter_runtime_cli.Base.{
  ℕ, ◌+◌, ◌≤◌, ◌<◌, ◌≡◌, refl, sym, ap, subst, ◌∙◌, List, [], ◌∷◌, ◌++◌, length, some, if_both,
  add64, add64_exact, u64_mod, arith,
}
use xgc2_adapter_runtime_cli.Message.Work.{WorkFrame}
use xgc2_adapter_runtime_cli.State.{ClientConfig, SessionFence, QueuedWorkFrame, Impl}
use xgc2_adapter_runtime_cli.Queue.{stamp_header, validate_header}
use xgc2_adapter_runtime_cli.Queue.Headers.{validate_header_lem}
use xgc2_adapter_runtime_cli.Transport.{WriterStep, Written, frames_of, is_over}
use xgc2_adapter_runtime_cli.WorkStream.{stamp_work, pop_work, take_work_frame}

-- The frames that the writer takes, a change of the state by other threads before each round.
unfoldable pub written : SessionFence → List (Impl → Impl) → Impl → List (Written WorkFrame)
written fence [] s = []
written fence (others ∷ rounds) s =
    let r = take_work_frame fence (others s) in frames_of r.0 ++ written fence rounds r.1

-- Other threads neither count frames of this stream nor change the configuration.
abbrev pub LeavesSequence : (Impl → Impl) → Type 0
LeavesSequence others =
    (s : Impl)
    → ((others s).config ≡ s.config) × ((others s).work_out_sequence ≡ s.work_out_sequence)

abbrev pub AllLeaveSequence : List (Impl → Impl) → Type 0
AllLeaveSequence [] = Unit
AllLeaveSequence (others ∷ rounds) = LeavesSequence others × AllLeaveSequence rounds

-- Each header is accepted after the one before, with the next number.
abbrev pub AcceptedFrom : ClientConfig → SessionFence → ℕ → List (Written WorkFrame) → Type 0
AcceptedFrom config fence n [] = Unit
AcceptedFrom config fence n (x ∷ xs) =
    (validate_header config x.header fence fence.connection_epoch n ≡ some (n + 1))
    × AcceptedFrom config fence (n + 1) xs

stamp_header-accepted :
    (config : ClientConfig) (fence : SessionFence) (n : ℕ)
    → validate_header config
        (stamp_header config fence fence.connection_epoch (n + 1))
        fence
        fence.connection_epoch
        n
      ≡ some (n + 1)
unfolding stamp_header
stamp_header-accepted config fence n =
    (validate_header_lem config _ fence fence.connection_epoch n (n + 1)).1
      ((refl, refl, refl, refl, refl, refl), omega arith, refl)

-- What one round leaves: nothing written and the same count, or the next number.
data Round (fence : SessionFence) (s : Impl) : WriterStep WorkFrame × Impl → Type 0 where
  idle :
      {step : WriterStep WorkFrame} {t : Impl}
      → frames_of step ≡ []
      → t.config ≡ s.config
      → t.work_out_sequence ≡ s.work_out_sequence
      → Round fence s (step, t)
  counted :
      {x : Written WorkFrame} {t : Impl}
      → x.header ≡ stamp_header s.config fence fence.connection_epoch (add64 s.work_out_sequence 1)
      → t.config ≡ s.config
      → t.work_out_sequence ≡ add64 s.work_out_sequence 1
      → Round fence s (WriterStep.write x, t)

pop_work-Round :
    (fence : SessionFence) (queue : List QueuedWorkFrame) (s : Impl)
    → Round fence s (pop_work fence queue s)
unfolding pop_work stamp_work
pop_work-Round fence [] s = Round.idle refl refl refl
pop_work-Round fence (front ∷ rest) s = Round.counted refl refl refl

take_work_frame-Round : (fence : SessionFence) (s : Impl) → Round fence s (take_work_frame fence s)
unfolding take_work_frame
take_work_frame-Round fence s =
    if_both (Round fence s) (is_over fence s) (Round.idle refl refl refl)
      (pop_work-Round fence s.work_queue s)

frames-AcceptedFrom :
    (fence : SessionFence) (config : ClientConfig) (n : ℕ) (s : Impl)
    (r : WriterStep WorkFrame × Impl) (xs : List (Written WorkFrame))
    → s.config ≡ config
    → s.work_out_sequence ≡ n
    → n + 1 < u64_mod
    → Round fence s r
    → (r.1.config ≡ config
        → (m : ℕ) → r.1.work_out_sequence ≡ m
        → n ≤ m
        → m ≤ n + 1
        → AcceptedFrom config fence m xs)
    → AcceptedFrom config fence n (frames_of r.0 ++ xs)
frames-AcceptedFrom fence config n s (step, t) xs c m small (Round.idle e k q) next =
    subst (λ l. AcceptedFrom config fence n (l ++ xs)) (sym e)
      (next (k ∙ c) n (q ∙ m) (omega arith) (omega arith))
frames-AcceptedFrom fence config n s (step, t) xs c m small (Round.counted e k q) next =
    let count : add64 s.work_out_sequence 1 ≡ n + 1 =
      ap (λ i. add64 i 1) m ∙ add64_exact n 1 small in
    let head = e ∙ ap₂ (λ d i. stamp_header d fence fence.connection_epoch i) c count in
    (
      subst (λ h. validate_header config h fence fence.connection_epoch n ≡ some (n + 1)) (sym head)
          (stamp_header-accepted config fence n),
      next (k ∙ c) (n + 1) (q ∙ count) (omega arith) (omega arith),
    )

written_lem :
    (config : ClientConfig) (fence : SessionFence) (rounds : List (Impl → Impl)) (n : ℕ) (s : Impl)
    → AllLeaveSequence rounds
    → s.config ≡ config
    → s.work_out_sequence ≡ n
    → n + length rounds < u64_mod
    → AcceptedFrom config fence n (written fence rounds s)
unfolding written
written_lem config fence [] n s a c m small = tt
written_lem config fence (others ∷ rounds) n s a c m small =
    frames-AcceptedFrom fence config n (others s) (take_work_frame fence (others s)) _
      ((a.0 s).0 ∙ c) ((a.0 s).1 ∙ m) (omega arith) (take_work_frame-Round fence (others s))
      (λ k i q low high. written_lem config fence rounds i _ a.1 k q (omega arith))

-- Where other threads leave the configuration and the count of the Work stream, and the count does not
-- reach 2 ^ 64: the headers of the frames that the Work writer takes are accepted by the check of headers
-- one after the other, each with the number after the one before.
pub written-AcceptedFrom :
    (fence : SessionFence) (rounds : List (Impl → Impl)) (s : Impl)
    → AllLeaveSequence rounds
    → s.work_out_sequence + length rounds < u64_mod
    → AcceptedFrom s.config fence s.work_out_sequence (written fence rounds s)
written-AcceptedFrom fence rounds s a small =
    written_lem s.config fence rounds s.work_out_sequence s a refl refl small
