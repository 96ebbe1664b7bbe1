-- ===== src/Examples/Transport.antt =====
-- Runs of the retrying transport.
use Prim.Native.Nat.{◌*◌, ◌^◌}
use gitlab_fleet_governor.Common.{
  ℕ, zero, suc, ◌+◌, ◌≤◌, ◌<◌, true, false, some, none, [], ◌≡◌, refl, arith, if◌then◌else◌, ltb,
  All, length,
}
use gitlab_fleet_governor.Common.Int.{pos, negsuc}
use gitlab_fleet_governor.Common.Text.{codes}
use gitlab_fleet_governor.Governance.Operation.{external}
use gitlab_fleet_governor.Gitlab.Pagination.{Response}
use gitlab_fleet_governor.Gitlab.Transport.{
  GovernorTransport, Timing, Answer, answered, broken, ErrorKinds, response, Interrupts, at_most,
  base_delay, calculate_delay, conclusive, rewind_at, round_trip, is_retryable_status_code,
  is_retryable_error, shift_one, times64, wrap64,
}
use gitlab_fleet_governor.Gitlab.Transport.Delay.{Within, calculate_delay-Within, base_delay-exact}
use gitlab_fleet_governor.Gitlab.Transport.Retry.{round_trip-Bounded, round_trip-settles}

abbrev transport : GovernorTransport
transport = record {
  max_retries = 3;
  base_backoff = 500000000;
  max_backoff = 30000000000;
  jitters = true;
}

-- A jitter that takes one nanosecond off.
abbrev timing : Timing
timing = record {
  parse_int = λ s. none;
  parse_time = λ s. none;
  unix = λ n. n;
  unix_milli = λ n. n;
  sub = λ a b. a;
  perturb = λ n d. negsuc 0;
  now = λ n. pos 0;
}

abbrev kinds : ErrorKinds
kinds = record {
  is_canceled = λ e. false;
  is_timeout = λ e. true;
  is_eof = λ e. false;
  is_op_error = λ e. false;
}

abbrev answer : ℕ → Response
answer status = record { status_code = status; header = λ name. [] }

-- The server is overloaded twice.
abbrev server : ℕ → Answer
server zero = answered (answer 503)
server (suc zero) = broken none (external (codes "timeout"))
server (suc (suc n)) = answered (answer 200)

abbrev undisturbed : Interrupts
undisturbed = record { wait = λ n. none; rewind = λ n. none; sleep = λ n. none }

rewinds : (n : ℕ) → rewind_at undisturbed n ≡ none
rewinds zero = refl
rewinds (suc n) = refl

first_fail : (i : ℕ) → i < 2 → conclusive kinds (server i) ≡ none
unfolding conclusive is_retryable_status_code is_retryable_error
first_fail zero h = refl
first_fail (suc zero) h = refl
first_fail (suc (suc n)) h = ground (arith, h)

third_settles : conclusive kinds (server 2) ≡ some (response (answer 200))
unfolding conclusive is_retryable_status_code
third_settles = refl

round_trip-settles_example :
    ((round_trip timing kinds transport server undisturbed).result ≡ response (answer 200))
    × ((round_trip timing kinds transport server undisturbed).sends ≡ 2 + 1)
round_trip-settles_example =
    round_trip-settles timing kinds transport server undisturbed (λ n. refl) rewinds (λ n. refl) 2
      (response (answer 200)) first_fail third_settles (ground arith)

round_trip-Bounded_example :
    ((round_trip timing kinds transport server undisturbed).sends ≤ transport.max_retries + 1)
    × (length (round_trip timing kinds transport server undisturbed).delays ≤ transport.max_retries)
    × All
        (Within transport.max_backoff)
        (round_trip timing kinds transport server undisturbed).delays
round_trip-Bounded_example = round_trip-Bounded timing kinds transport server undisturbed refl

calculate_delay-Within_example :
    Within transport.max_backoff (calculate_delay timing transport 64 (some (answer 429)))
calculate_delay-Within_example = calculate_delay-Within timing transport 64 (some (answer 429)) refl

base_delay-exact_example :
    base_delay transport 5
    ≡ at_most
        (pos transport.max_backoff)
        (pos (transport.base_backoff * (if ltb 1024 (2 ^ 5) then 1024 else 2 ^ 5)))
base_delay-exact_example = base_delay-exact transport 5 (ground arith) (ground arith)

-- From attempt 64 on, the shift leaves nothing.
backoff_gone : base_delay transport 64 ≡ pos 0
unfolding base_delay shift_one times64 wrap64
backoff_gone = refl
