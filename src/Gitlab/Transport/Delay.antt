-- ===== src/Gitlab/Transport/Delay.antt =====
-- The delays of internal/gitlab/ratelimit.go stay within their bounds.
use Prim.Native.Nat.{◌*◌, ◌^◌}
use native.Mathlib.Nat.{mul-le-mul_left}
use gitlab_fleet_governor.Common.{
  ℕ, ◌≤◌, ◌<◌, true, false, Option, some, none, ◌≡◌, inl, inr, refl, if◌then◌else◌, arith,
  Bool-cases, ltb,
}
use gitlab_fleet_governor.Common.Int.{ℤ, pos, negsuc, ltb_ℤ}
use gitlab_fleet_governor.Gitlab.Pagination.{Response}
use gitlab_fleet_governor.Gitlab.Transport.{
  GovernorTransport, Timing, at_most, apply_jitter, base_delay, calculate_delay, server_delay,
  prefer, times64, wrap64, shift_one,
}

-- The delay is a number of nanoseconds that the cap allows.
abbrev pub Within : ℕ → ℤ → Type 0
Within cap d = (n : ℕ) × (d ≡ pos n) × (n ≤ cap)

at_most-Within : (cap n : ℕ) → Within cap (at_most (pos cap) (pos n))
at_most-Within cap n = elim (Bool-cases (ltb cap n)) [
  | inl above ↦ rw above (cap, refl, omega arith)
  | inr below ↦ rw below (n, refl, ground (arith, below))
]

clamp : (cap : ℕ) (d : ℤ) → Within cap (at_most (pos cap) (if ltb_ℤ d (pos 0) then pos 0 else d))
clamp cap (pos n) = let big : (ltb n 0 ≡ false) = ground arith in rw big (at_most-Within cap n)
clamp cap (negsuc n) = at_most-Within cap 0

apply_jitter-Within :
    (t : GovernorTransport) (perturb : ℤ → ℤ) (d : ℤ)
    → t.jitters ≡ true
    → Within t.max_backoff (apply_jitter t perturb d)
unfolding apply_jitter
apply_jitter-Within t perturb d jitters = elim (Bool-cases (ltb_ℤ (pos 0) d)) [
  | inr none_left ↦ rw none_left (0, refl, omega arith)
  | inl positive ↦ rw (positive, jitters) (clamp t.max_backoff (perturb d))
]

-- With jitter, every delay before a retry, whatever the server asks for and whatever the backoff
-- overflows to, is at least 0 and at most the transport's `max_backoff`.
pub calculate_delay-Within :
    (go : Timing) (t : GovernorTransport) (attempt : ℕ) (resp : Option Response)
    → t.jitters ≡ true
    → Within t.max_backoff (calculate_delay go t attempt resp)
unfolding calculate_delay
calculate_delay-Within go t attempt none jitters =
    apply_jitter-Within t (go.perturb attempt) (base_delay t attempt) jitters
calculate_delay-Within go t attempt (some resp) jitters =
    apply_jitter-Within t (go.perturb attempt)
      (prefer (server_delay go resp (go.now attempt)) (base_delay t attempt)) jitters

wrap64-small : (n : ℕ) → n < 2 ^ 63 → wrap64 n ≡ pos n
unfolding wrap64
wrap64-small n small = ground (arith, small)

shift_one-small : (attempt : ℕ) → attempt < 63 → shift_one attempt ≡ pos (2 ^ attempt)
unfolding shift_one
shift_one-small attempt early =
    let below : (ltb attempt 63 ≡ true) = ground (arith, early) in rw below refl

at_most-pos : (cap n : ℕ) → at_most (pos cap) (pos n) ≡ pos (if ltb cap n then cap else n)
at_most-pos cap n = elim (Bool-cases (ltb cap n)) [
  | inl above ↦ rw above refl
  | inr below ↦ rw below refl
]

-- Up to attempt 62 the backoff doubles from the base up to 1024 times it, and is cut at the maximum,
-- if 1024 times the base fits in 63 bits.
pub base_delay-exact :
    (t : GovernorTransport) (attempt : ℕ)
    → attempt < 63
    → t.base_backoff * 1024 < 2 ^ 63
    → base_delay t attempt
      ≡ at_most
          (pos t.max_backoff)
          (pos (t.base_backoff * (if ltb 1024 (2 ^ attempt) then 1024 else 2 ^ attempt)))
unfolding base_delay times64
base_delay-exact t attempt early small =
    let m = if ltb 1024 (2 ^ attempt) then 1024 else 2 ^ attempt in
    let least : (m ≤ 1024) = elim (Bool-cases (ltb 1024 (2 ^ attempt))) [
      | inl above ↦ rw above (omega arith)
      | inr below ↦ rw below (ground (arith, below))
    ] in
    let shifted : (shift_one attempt ≡ pos (2 ^ attempt)) = shift_one-small attempt early in
    let cut : (at_most (pos 1024) (pos (2 ^ attempt)) ≡ pos m) = at_most-pos 1024 (2 ^ attempt) in
    let fits : (t.base_backoff * m < 2 ^ 63) =
      omega (arith, mul-le-mul_left t.base_backoff least, small) in
    rw (shifted, cut, wrap64-small (t.base_backoff * m) fits) refl
