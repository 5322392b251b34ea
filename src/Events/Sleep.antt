-- ===== src/Events/Sleep.antt =====
-- How long RunOnce waits in `select`.
use nohands.Prelude.{
  ℕ, ◌+◌, ◌-◌, ◌≤◌, ◌≡◌, refl, true, Option, none, some, leb, ltb, if◌then◌else◌, ℤ, pos, negsuc,
  arith,
}
use nohands.Events.Timers.{Timers, nil, cons, is_nil, list_length}
use nohands.Events.Weights.{Weight, total}
use nohands.Events.RunOnce.{timeout, elapsed, at_most, no_timer_timeout}

-- The timers that would be due before `s` milliseconds are over, `gone` after `m_last_run`.
abbrev pub overslept : ℕ → ℕ → Weight
overslept s gone i t = if leb s (t - gone) then 0 else 1

total-overslept : (s gone b : ℕ) (ts : Timers) → s ≤ b - gone → total (overslept s gone) b ts ≡ 0
unfolding total
total-overslept s gone b nil h = refl
total-overslept s gone b (cons i d cs ts) h =
    ground (arith, total-overslept s gone (b + d) cs, total-overslept s gone b ts)

-- No timeout only if there is no timer, and none that is too long.
abbrev pub NotLate : ℕ → Timers → Option ℕ → Type 0
NotLate gone ts none = is_nil ts ≡ true
NotLate gone ts (some s) = total (overslept s gone) 0 ts ≡ 0

no_timers : (gone : ℕ) (max_sleep_ms : ℤ) → NotLate gone nil (no_timer_timeout max_sleep_ms)
unfolding total
no_timers gone (pos m) = refl
no_timers gone (negsuc m) = refl

at_most-le : (max_sleep_ms : ℤ) (ms : ℕ) → at_most max_sleep_ms ms ≤ ms
at_most-le (pos m) ms = ground arith
at_most-le (negsuc m) ms = omega arith

one_timer :
    (s gone i d : ℕ) (cs : Timers) → s ≤ d - gone → total (overslept s gone) 0 (cons i d cs nil) ≡ 0
unfolding total
one_timer s gone i d cs h = ground (arith, total-overslept s gone (0 + d) cs)

-- Where the timers are one heap at most, RunOnce waits without a limit only if there is no timer,
-- and otherwise no longer than until the first timer of the whole heap is due.
pub timeout-NotLate :
    (max_sleep_ms : ℤ) (last_run now : ℕ) (ts : Timers)
    → list_length ts ≤ 1
    → NotLate (elapsed last_run now) ts (timeout max_sleep_ms last_run now ts)
unfolding timeout
timeout-NotLate max_sleep_ms last_run now nil h = no_timers (elapsed last_run now) max_sleep_ms
timeout-NotLate max_sleep_ms last_run now (cons i d cs nil) h =
    one_timer _ gone i d cs
      (ground (arith, at_most-le max_sleep_ms (if ltb gone d then d - gone else 0)))
  where
    gone : ℕ
    gone = elapsed last_run now
timeout-NotLate max_sleep_ms last_run now (cons i d cs (cons j e ds ts)) h = absurd (omega arith)
