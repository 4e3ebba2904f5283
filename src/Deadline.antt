-- ===== src/Deadline.antt =====
-- src/internal.hpp: deadlines and the phase of heartbeats; src/session_state.cpp: the backoff.
-- Times are counts of nanoseconds. An `int64_t` stays in its range by the code's own tests.
pub mod Laws
use xgc2_adapter_runtime_cli.Base.{
  ℕ, ◌-◌, ◌*◌, ◌+◌, ◌%◌, Bool, ◌||◌, min, ltb, leb, ◌==◌, if◌then◌else◌, u32_mod,
}
use xgc2_adapter_runtime_cli.Base.Int.{ℤ, pos, negsuc, ◌+ℤ◌, ◌-ℤ◌, ltb_ℤ, leb_ℤ}
use xgc2_adapter_runtime_cli.Message.Work.{Deadline}

abbrev pub i64_max : ℤ
i64_max = pos 9223372036854775807

unfoldable pub relative_deadline : ℕ → ℤ → ℤ
relative_deadline ttl_ms received =
    let ttl_nanos = pos (ttl_ms * 1000000) in
    if ltb_ℤ (i64_max -ℤ ttl_nanos) received then i64_max else received +ℤ ttl_nanos

unfoldable pub normalize_deadline : Deadline → ℤ → Deadline
normalize_deadline deadline received =
    let relative = relative_deadline deadline.ttl_ms received in
    if deadline.ttl_ms == 0 then deadline else record {
      ttl_ms = 0;
      deadline_unix_nanos =
          if leb_ℤ deadline.deadline_unix_nanos (pos 0)
            || ltb_ℤ relative deadline.deadline_unix_nanos
          then relative
          else deadline.deadline_unix_nanos;
    }

-- C++ `%` on signed numbers takes the sign of the dividend.
unfoldable pub rem_ℤ : ℤ → ℕ → ℤ
rem_ℤ (pos a) n = pos (a % n)
rem_ℤ (negsuc a) n = pos 0 -ℤ pos ((a + 1) % n)

-- From a wall clock to the next multiple of a positive interval, both in nanoseconds.
unfoldable pub aligned_delay : ℤ → ℕ → ℤ
unfolding rem_ℤ
aligned_delay wall_nanos interval_nanos =
    let remainder = rem_ℤ wall_nanos interval_nanos in
    let wrapped =
      (if ltb_ℤ remainder (pos 0) then remainder +ℤ pos interval_nanos else remainder) in
    pos interval_nanos -ℤ wrapped

-- The delay from `monotonic_now` to the deadline of NextAlignedHeartbeatDeadline, for an interval
-- in milliseconds; an interval of 0 gives no delay.
unfoldable pub heartbeat_delay : ℤ → ℕ → ℤ
heartbeat_delay wall_nanos interval_ms =
    if interval_ms == 0 then pos 0 else aligned_delay wall_nanos (interval_ms * 1000000)

-- NextBackoff, with the bound `reconnect_max_delay_ms`; both numbers are `uint32_t`.
unfoldable pub next_backoff : ℕ → ℕ → ℕ
next_backoff maximum current =
    if leb maximum current then maximum else min maximum (current * 2 % u32_mod)
