-- ===== src/Deadline/Laws.antt =====
-- What the computed deadlines, delays and backoffs are.
use native.Mathlib.Nat.{mod-lt, div-add-mod, add-mod_right, mul-mod_right, mod-eq_of_lt}
use xgc2_adapter_runtime_cli.Base.{
  ℕ, ◌-◌, ◌*◌, ◌+◌, ◌%◌, ◌^◌, ◌≤◌, ◌<◌, ◌≡◌, ◌/◌, ◌∙◌, Bool-cases, inl, inr, min, arith, ap, false,
  ◌||◌, ◌==◌, if◌then◌else◌,
}
use xgc2_adapter_runtime_cli.Base.Int.{ℤ, pos, negsuc, ◌+ℤ◌, ◌≤ℤ◌, min_ℤ, leb_ℤ, ltb_ℤ}
use xgc2_adapter_runtime_cli.Message.Work.{Deadline}
use xgc2_adapter_runtime_cli.Deadline.{
  i64_max, relative_deadline, normalize_deadline, rem_ℤ, aligned_delay, heartbeat_delay,
  next_backoff,
}

relative_deadline_lem :
    (ttl_ms : ℕ) (received : ℤ)
    → relative_deadline ttl_ms received ≡ min_ℤ i64_max (received +ℤ pos (ttl_ms * 1000000))
unfolding relative_deadline
relative_deadline_lem ttl_ms (pos a) = ground arith
relative_deadline_lem ttl_ms (negsuc a) = ground arith

nonzero : (n : ℕ) → 0 < n → (n == 0) ≡ false
nonzero n h = ground arith

earlier :
    (x m : ℤ)
    → (if leb_ℤ x (pos 0) || ltb_ℤ m x then m else x) ≡ (if leb_ℤ x (pos 0) then m else min_ℤ x m)
earlier x m = ground arith

-- A positive TTL is cleared, and the deadline becomes receipt plus TTL, held to 64 bits, or the
-- positive absolute deadline of the request where that is earlier.
pub normalize_deadline_lem :
    (d : Deadline) (received : ℤ)
    → 0 < d.ttl_ms
    → let relative = min_ℤ i64_max (received +ℤ pos (d.ttl_ms * 1000000)) in
      normalize_deadline d received ≡ record {
        ttl_ms = 0;
        deadline_unix_nanos =
            if leb_ℤ d.deadline_unix_nanos (pos 0)
            then relative
            else min_ℤ d.deadline_unix_nanos relative;
      }
unfolding normalize_deadline
normalize_deadline_lem d received h =
    rw (relative_deadline_lem d.ttl_ms received, nonzero d.ttl_ms h)
      (ap (λ x. record { ttl_ms = 0; deadline_unix_nanos = x })
        (earlier d.deadline_unix_nanos (min_ℤ i64_max (received +ℤ pos (d.ttl_ms * 1000000)))))

aligned_delay-pos : (a n : ℕ) → 0 < n → aligned_delay (pos a) n ≡ pos (n - a % n)
unfolding aligned_delay
aligned_delay-pos a n h = grind arith

aligned_delay-negsuc :
    (a n : ℕ)
    → 0 < n
    → aligned_delay (negsuc a) n ≡ pos (if (a + 1) % n == 0 then n else (a + 1) % n)
unfolding aligned_delay
aligned_delay-negsuc a n h = grind arith

-- A delay that is positive, at most the interval, and ends on a multiple of it.
abbrev pub IsAligned : ℤ → ℕ → ℤ → Type 0
IsAligned wall n delay = (pos 1 ≤ℤ delay) × (delay ≤ℤ pos n) × (rem_ℤ (wall +ℤ delay) n ≡ pos 0)

round_up : (a n : ℕ) → 0 < n → (a + (n - a % n)) % n ≡ 0
round_up a n h =
    ap (λ t. t % n) (omega (arith, div-add-mod a n, mod-lt a h))
    ∙ add-mod_right (n * (a / n)) n
    ∙ mul-mod_right n (a / n)

round_down : (b n : ℕ) → (b - b % n) % n ≡ 0
round_down b n = ap (λ t. t % n) (omega (arith, div-add-mod b n)) ∙ mul-mod_right n (b / n)

round_down_one : (b n : ℕ) → b % n ≡ 0 → (b - n) % n ≡ 0
round_down_one b n h = grind arith

IsAligned-up : (a n : ℕ) → 0 < n → IsAligned (pos a) n (pos (n - a % n))
unfolding rem_ℤ
IsAligned-up a n h = (omega (arith, mod-lt a h), omega arith, ground (arith, round_up a n h))

IsAligned-down :
    (a n : ℕ) → 0 < n → IsAligned (negsuc a) n (pos (if (a + 1) % n == 0 then n else (a + 1) % n))
unfolding rem_ℤ
IsAligned-down a n h = elim (Bool-cases ((a + 1) % n == 0)) [
  | inl z ↦ rw z (
    omega arith,
    omega arith,
    ground (arith, round_down_one (a + 1) n, mod-eq_of_lt {n = a + 1} {m = n}),
  )
  | inr z ↦ rw z (
    ground arith,
    omega (arith, mod-lt (a + 1) h),
    ground (arith, round_down (a + 1) n, mod-eq_of_lt {n = a + 1} {m = n}),
  )
]

aligned_delay-IsAligned : (wall : ℤ) (n : ℕ) → 0 < n → IsAligned wall n (aligned_delay wall n)
aligned_delay-IsAligned (pos a) n h = rw (aligned_delay-pos a n h) (IsAligned-up a n h)
aligned_delay-IsAligned (negsuc a) n h = rw (aligned_delay-negsuc a n h) (IsAligned-down a n h)

-- With a positive interval the delay to the next heartbeat is positive and at most the interval,
-- and it ends on a multiple of the interval of the wall clock.
pub heartbeat_delay-IsAligned :
    (wall : ℤ) (interval_ms : ℕ)
    → 0 < interval_ms
    → IsAligned wall (interval_ms * 1000000) (heartbeat_delay wall interval_ms)
unfolding heartbeat_delay
heartbeat_delay-IsAligned wall i h =
    rw (nonzero i h) (aligned_delay-IsAligned wall (i * 1000000) (omega arith))

-- Up to a bound of 2 ^ 31 milliseconds, a backoff within the bound is doubled and stops at the bound, and
-- never falls.
pub next_backoff_doubles :
    (maximum current : ℕ)
    → maximum ≤ 2 ^ 31
    → current ≤ maximum
    → (next_backoff maximum current ≡ min maximum (current * 2))
      × (current ≤ next_backoff maximum current)
unfolding next_backoff
next_backoff_doubles maximum current h k = ground arith

-- For a backoff from 2 ^ 31 milliseconds on, within 32 bits and below the bound, the next one is twice as
-- much less 2 ^ 32, which is shorter.
pub next_backoff_wraps :
    (maximum current : ℕ)
    → 2 ^ 31 ≤ current
    → current < 2 ^ 32
    → current < maximum
    → (next_backoff maximum current + 2 ^ 32 ≡ current * 2)
      × (next_backoff maximum current < current)
unfolding next_backoff
next_backoff_wraps maximum current h k l = ground arith
