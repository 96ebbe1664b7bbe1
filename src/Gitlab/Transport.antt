-- ===== src/Gitlab/Transport.antt =====
-- internal/gitlab/ratelimit.go: requests that are sent again after a delay. The base transport, the
-- limiter, the clock's sleep, floating point and Go's parsers are parameters. Durations and times are
-- nanoseconds; a product of durations keeps the wrap-around of 64 bits.
pub mod Delay
pub mod Retry
use Prim.Native.Nat.{◌*◌, ◌%◌, ◌^◌}
use gitlab_fleet_governor.Common.{
  ℕ, zero, suc, ◌+◌, ◌-◌, Bool, true, false, Option, some, none, List, [], ◌∷◌, ◌++◌, not, ◌&&◌,
  ◌||◌, if◌then◌else◌, ltb, nat_beq,
}
use gitlab_fleet_governor.Common.Int.{ℤ, pos, negsuc, ltb_ℤ}
use gitlab_fleet_governor.Common.Text.{Text, codes, is_empty}
use gitlab_fleet_governor.Resources.{Time}
use gitlab_fleet_governor.Governance.Operation.{Error, wrapped}
use gitlab_fleet_governor.Gitlab.Pagination.{Response}

-- `GovernorTransport`, less what is mutable. The ratio of the jitter only counts as positive or not.
pub record GovernorTransport : Type 0 where
  pub max_retries : ℕ
  pub base_backoff : ℕ
  pub max_backoff : ℕ
  pub jitters : Bool

-- `GovernorTransportConfig`
pub record TransportConfig : Type 0 where
  pub max_retries : ℤ
  pub base_backoff : ℤ
  pub max_backoff : ℤ

abbrev positive_or : ℕ → ℤ → ℕ
positive_or default (pos zero) = default
positive_or default (pos (suc n)) = suc n
positive_or default (negsuc n) = default

unfoldable pub new_governor_transport : TransportConfig → GovernorTransport
new_governor_transport cfg = record {
  max_retries = positive_or 0 cfg.max_retries;
  base_backoff = positive_or 500000000 cfg.base_backoff;
  max_backoff = positive_or 30000000000 cfg.max_backoff;
  jitters = true;
}

-- Parsing of headers, times and their difference, and the float arithmetic of the jitter on the
-- delay of an attempt.
pub record Timing : Type 0 where
  pub parse_int : Text → Option ℤ
  pub parse_time : Text → Option Time
  pub unix : ℤ → Time
  pub unix_milli : ℤ → Time
  pub sub : Time → Time → ℤ
  pub perturb : ℕ → ℤ → ℤ
  pub now : ℕ → Time

unfoldable pub is_retryable_status_code : ℕ → Bool
is_retryable_status_code code =
    nat_beq code 429 || nat_beq code 500 || nat_beq code 502 || nat_beq code 503 || nat_beq code 504

-- A value modulo 2^64, read as a signed one.
unfoldable pub wrap64 : ℕ → ℤ
wrap64 n =
    if ltb (n % 2 ^ 64) (2 ^ 63) then pos (n % 2 ^ 64) else negsuc ((2 ^ 64 - 1) - n % 2 ^ 64)

-- `1 << attempt`
unfoldable pub shift_one : ℕ → ℤ
shift_one attempt =
    if ltb attempt 63
    then pos (2 ^ attempt)
    else if nat_beq attempt 63
    then negsuc (2 ^ 63 - 1)
    else pos 0

unfoldable pub times64 : ℕ → ℤ → ℤ
times64 d (pos m) = wrap64 (d * m)
times64 d (negsuc m) = wrap64 (2 ^ 64 - d * (m + 1) % 2 ^ 64)

abbrev pub at_most : ℤ → ℤ → ℤ
at_most cap d = if ltb_ℤ cap d then cap else d

-- The exponential backoff, before the jitter.
unfoldable pub base_delay : GovernorTransport → ℕ → ℤ
base_delay t attempt =
    at_most (pos t.max_backoff) (times64 t.base_backoff (at_most (pos 1024) (shift_one attempt)))

-- `rand` enters by the attempt.
unfoldable pub apply_jitter : GovernorTransport → (ℤ → ℤ) → ℤ → ℤ
apply_jitter t perturb d =
    if not (ltb_ℤ (pos 0) d)
    then pos 0
    else if not t.jitters
    then d
    else at_most (pos t.max_backoff) (if ltb_ℤ (perturb d) (pos 0) then pos 0 else perturb d)

abbrev seconds : ℤ → ℤ
seconds (pos n) = wrap64 (n * 1000000000)
seconds (negsuc n) = pos 0

abbrev until : Timing → Time → Time → ℤ
until go now t = if ltb_ℤ now t then go.sub t now else pos 0

abbrev retry_after_date : Timing → Text → Time → Option ℤ
retry_after_date go val now = elim (go.parse_time val) [
  | none ↦ none
  | some t ↦ some (until go now t)
]

-- `ParseRetryAfter`: seconds, or a date.
unfoldable pub parse_retry_after : Timing → Response → Time → Option ℤ
parse_retry_after go resp now =
    let val = resp.header (codes "Retry-After") in
    if is_empty val then none else elim (go.parse_int val) [
      | none ↦ retry_after_date go val now
      | some n ↦ if ltb_ℤ n (pos 0) then retry_after_date go val now else some (seconds n)
    ]

abbrev reset_date : Timing → Response → Option Time
reset_date go resp =
    let val = resp.header (codes "RateLimit-ResetTime") in
    if is_empty val then none else go.parse_time val

-- `ParseRateLimitReset`: a Unix time in seconds or milliseconds, or a date.
unfoldable pub parse_rate_limit_reset : Timing → Response → Option Time
parse_rate_limit_reset go resp =
    let val = resp.header (codes "RateLimit-Reset") in
    if is_empty val then reset_date go resp else elim (go.parse_int val) [
      | none ↦ reset_date go resp
      | some ts ↦
          if not (ltb_ℤ (pos 0) ts)
          then reset_date go resp
          else if ltb_ℤ (pos 100000000000) ts
          then some (go.unix_milli ts)
          else some (go.unix ts)
    ]

-- The wait that the server asks for, if any.
unfoldable pub server_delay : Timing → Response → Time → Option ℤ
server_delay go resp now = elim (parse_retry_after go resp now) [
  | some d ↦ some d
  | none ↦
      if not (nat_beq resp.status_code 429) then none else elim (parse_rate_limit_reset go resp) [
        | none ↦ none
        | some t ↦ if ltb_ℤ now t then some (go.sub t now) else none
      ]
]

-- The server's wait goes before the backoff.
abbrev pub prefer : Option ℤ → ℤ → ℤ
prefer none backoff = backoff
prefer (some d) backoff = d

unfoldable pub calculate_delay : Timing → GovernorTransport → ℕ → Option Response → ℤ
calculate_delay go t attempt none = apply_jitter t (go.perturb attempt) (base_delay t attempt)
calculate_delay go t attempt (some resp) =
    apply_jitter t (go.perturb attempt)
      (prefer (server_delay go resp (go.now attempt)) (base_delay t attempt))

-- What the base transport answers: a response, or an error and perhaps a response.
pub data Answer : Type 0 where
  answered : Response → Answer
  broken : Option Response → Error → Answer

-- What `errors.Is` and `errors.As` find in an error.
pub record ErrorKinds : Type 0 where
  pub is_canceled : Error → Bool
  pub is_timeout : Error → Bool
  pub is_eof : Error → Bool
  pub is_op_error : Error → Bool

unfoldable pub is_retryable_error : ErrorKinds → Error → Bool
is_retryable_error kinds e =
    not (kinds.is_canceled e) && (kinds.is_timeout e || kinds.is_eof e || kinds.is_op_error e)

pub data Result : Type 0 where
  response : Response → Result
  failure : Error → Result

-- A trip: what it returns, how often it sent the request, and the delays it slept.
pub record Trip : Type 0 where
  pub result : Result
  pub sends : ℕ
  pub delays : List ℤ

abbrev pub response_of : Answer → Option Response
response_of (answered resp) = some resp
response_of (broken resp e) = resp

-- The result of an answer that is not to be retried.
unfoldable pub conclusive : ErrorKinds → Answer → Option Result
conclusive kinds (answered resp) =
    if is_retryable_status_code resp.status_code then none else some (response resp)
conclusive kinds (broken resp e) = if is_retryable_error kinds e then none else some (failure e)

-- The result of the last answer, once no attempt is left.
unfoldable pub give_up : Answer → Result
give_up (answered resp) = response resp
give_up (broken resp e) = failure (wrapped (codes "request failed after retries") e)

-- What interrupts an attempt: the limiter's wait, the rewinding of the body, the sleep after it.
pub record Interrupts : Type 0 where
  pub wait : ℕ → Option Error
  pub rewind : ℕ → Option Error
  pub sleep : ℕ → Option Error

abbrev pub rewind_at : Interrupts → ℕ → Option Error
rewind_at by zero = none
rewind_at by (suc n) = by.rewind (suc n)

module _ (go : Timing) (kinds : ErrorKinds) (t : GovernorTransport) (send : ℕ → Answer)
    (by : Interrupts) where
  abbrev pub stop : ℕ → List ℤ → Text → Error → Trip
  stop sends delays context e = record {
    result = failure (wrapped context e);
    sends = sends;
    delays = delays;
  }

  -- Attempt `n`, with `r` more behind it, after the delays so far.
  unfoldable pub attempts : (r n : ℕ) → List ℤ → Trip
  attempts zero n delays = elim (by.wait n) [
    | some e ↦ stop n delays (codes "proactive rate limiter wait canceled") e
    | none ↦ elim (rewind_at by n) [
      | some e ↦ stop n delays (codes "failed to rewind request body") e
      | none ↦ elim (conclusive kinds (send n)) [
        | some result ↦ record { result = result; sends = n + 1; delays = delays }
        | none ↦ record { result = give_up (send n); sends = n + 1; delays = delays }
      ]
    ]
  ]
  attempts (suc r) n delays = elim (by.wait n) [
    | some e ↦ stop n delays (codes "proactive rate limiter wait canceled") e
    | none ↦ elim (rewind_at by n) [
      | some e ↦ stop n delays (codes "failed to rewind request body") e
      | none ↦ elim (conclusive kinds (send n)) [
        | some result ↦ record { result = result; sends = n + 1; delays = delays }
        | none ↦ elim (by.sleep n) [
          | some e ↦ stop (n + 1) delays (codes "context canceled during retry backoff") e
          | none ↦ attempts r (n + 1) (delays ++ calculate_delay go t n (response_of (send n)) ∷ [])
        ]
      ]
    ]
  ]

  -- `RoundTrip`, of a request whose body can be read again.
  unfoldable pub round_trip : Trip
  round_trip = attempts t.max_retries 0 []
