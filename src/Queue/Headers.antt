-- ===== src/Queue/Headers.antt =====
-- src/queue.cpp: what `ValidateHeaderLocked` lets through.
use xgc2_adapter_runtime_cli.Base.{
  ℕ, ◌<◌, ◌≡◌, ◌↔◌, sym, Bool, same_iff, some, List, [], ◌∷◌, if◌then◌else◌, option_cases, arith,
}
use xgc2_adapter_runtime_cli.Message.Work.{SessionHeader}
use xgc2_adapter_runtime_cli.State.{ClientConfig, SessionFence, Impl}
use xgc2_adapter_runtime_cli.Queue.{same_fence, validate_header, validate_work_header}

-- The header belongs to this session, process and connection.
abbrev pub IsCurrent : ClientConfig → SessionHeader → SessionFence → ℕ → Type 0
IsCurrent config header fence connection_epoch =
    (header.instance_id ≡ config.instance_id)
    × (header.session_id ≡ fence.session_id)
    × (header.process_generation ≡ config.process_generation)
    × (header.session_generation ≡ fence.session_generation)
    × (header.runtime_epoch ≡ fence.runtime_epoch)
    × (header.connection_epoch ≡ connection_epoch)

-- A header is accepted exactly if all of its identities are those of the session and its frame sequence
-- is above the last accepted one; that sequence is then the last accepted one.
pub validate_header_lem :
    (config : ClientConfig) (header : SessionHeader) (fence : SessionFence) (epoch previous n : ℕ)
    → (validate_header config header fence epoch previous ≡ some n) ↔ (
        IsCurrent config header fence epoch
        × (previous < header.frame_sequence)
        × (n ≡ header.frame_sequence))
unfolding validate_header same_fence
validate_header_lem config header fence epoch previous n = ground (
  arith,
  same_iff header.instance_id config.instance_id,
  same_iff header.session_id fence.session_id,
)

-- The sequences that a stream of headers gets through, in order.
unfoldable pub accepted : SessionFence → List SessionHeader → Impl → List ℕ
accepted fence [] s = []
accepted fence (header ∷ headers) s =
    let rest = accepted fence headers (validate_work_header header fence s).1 in
    if (validate_work_header header fence s).0 then header.frame_sequence ∷ rest else rest

-- Strictly ascending, and above a bound.
abbrev pub IsAscending : ℕ → List ℕ → Type 0
IsAscending bound [] = Unit
IsAscending bound (n ∷ ns) = (bound < n) × IsAscending n ns

-- Whatever headers the Work stream brings, the accepted sequences ascend strictly from the last one: no
-- frame is accepted twice, or after a later one.
pub accepted-IsAscending :
    (fence : SessionFence) (headers : List SessionHeader) (s : Impl)
    → IsAscending s.work_in_sequence (accepted fence headers s)
unfolding accepted validate_work_header
accepted-IsAscending fence [] s = tt
accepted-IsAscending fence (header ∷ headers) s =
    option_cases {B = Bool × Impl}
      (λ r. IsAscending s.work_in_sequence (
        if r.0
        then header.frame_sequence ∷ accepted fence headers r.1
        else accepted fence headers r.1))
      (validate_header s.config header fence fence.connection_epoch s.work_in_sequence)
      (λ _. accepted-IsAscending fence headers s)
      (λ n e.
        let (current, above, same_n) =
          (validate_header_lem s.config header fence fence.connection_epoch s.work_in_sequence n).0
            e in
        (
          above,
          rw (sym same_n) (accepted-IsAscending fence headers (record s { work_in_sequence = n })),
        ))
