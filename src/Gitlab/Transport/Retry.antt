-- ===== src/Gitlab/Transport/Retry.antt =====
-- How often internal/gitlab/ratelimit.go sends a request, and what it returns.
use gitlab_fleet_governor.Common.{
  ℕ, zero, suc, ◌+◌, ◌≤◌, ◌<◌, true, some, none, List, [], ◌∷◌, ◌++◌, ◌≡◌, inl, inr, subst, arith,
  Option-cases, All, All-append, length, length-append,
}
use gitlab_fleet_governor.Common.Int.{ℤ}
use gitlab_fleet_governor.Gitlab.Transport.{
  GovernorTransport, Timing, Answer, ErrorKinds, Result, Trip, Interrupts, response_of, conclusive,
  rewind_at, attempts, round_trip, calculate_delay,
}
use gitlab_fleet_governor.Gitlab.Transport.Delay.{Within, calculate_delay-Within}

module _ (go : Timing) (kinds : ErrorKinds) (t : GovernorTransport) (send : ℕ → Answer)
    (by : Interrupts) (jitters : t.jitters ≡ true) where
  -- At most `last` sends, `r` of them after the delays so far, all within the cap.
  abbrev Bounded : ℕ → Trip → Type 0
  Bounded last trip =
      (trip.sends ≤ last + 1) × (length trip.delays ≤ last) × All (Within t.max_backoff) trip.delays

  attempts-Bounded :
      (r n last : ℕ) (delays : List ℤ)
      → n + r ≡ last
      → length delays ≤ n
      → All (Within t.max_backoff) delays
      → Bounded last (attempts go kinds t send by r n delays)
  unfolding attempts
  attempts-Bounded zero n last delays sum few within = elim (Option-cases (by.wait n)) [
    | inr (e, late) ↦ ground (arith, late, sum, few, within)
    | inl waited ↦ elim (Option-cases (rewind_at by n)) [
      | inr (e, stuck) ↦ ground (arith, waited, stuck, sum, few, within)
      | inl rewound ↦ elim (Option-cases (conclusive kinds (send n))) [
        | inr (result, done) ↦ ground (arith, waited, rewound, done, sum, few, within)
        | inl again ↦ ground (arith, waited, rewound, again, sum, few, within)
      ]
    ]
  ]
  attempts-Bounded (suc r) n last delays sum few within = elim (Option-cases (by.wait n)) [
    | inr (e, late) ↦ ground (arith, late, sum, few, within)
    | inl waited ↦ elim (Option-cases (rewind_at by n)) [
      | inr (e, stuck) ↦ ground (arith, waited, stuck, sum, few, within)
      | inl rewound ↦ elim (Option-cases (conclusive kinds (send n))) [
        | inr (result, done) ↦ ground (arith, waited, rewound, done, sum, few, within)
        | inl again ↦ elim (Option-cases (by.sleep n)) [
          | inr (e, woken) ↦ ground (arith, waited, rewound, again, woken, sum, few, within)
          | inl slept ↦
              let delay = calculate_delay go t n (response_of (send n)) in
              let rest =
                attempts-Bounded r (n + 1) last (delays ++ delay ∷ []) (omega (arith, sum))
                  (omega (arith, few, length-append delays (delay ∷ [])))
                  ((All-append (Within t.max_backoff) delays (delay ∷ [])).1
                    (within, (calculate_delay-Within go t n (response_of (send n)) jitters, tt))) in
              ground (arith, waited, rewound, again, slept, rest)
        ]
      ]
    ]
  ]

  -- With jitter, a trip sends the request at most `max_retries + 1` times and sleeps at most
  -- `max_retries` times, each time for at least 0 and at most `max_backoff`.
  pub round_trip-Bounded :
      ((round_trip go kinds t send by).sends ≤ t.max_retries + 1)
      × (length (round_trip go kinds t send by).delays ≤ t.max_retries)
      × All (Within t.max_backoff) (round_trip go kinds t send by).delays
  unfolding round_trip
  round_trip-Bounded =
      attempts-Bounded t.max_retries 0 t.max_retries [] (omega arith) (omega arith) tt

module _ (go : Timing) (kinds : ErrorKinds) (t : GovernorTransport) (send : ℕ → Answer)
    (by : Interrupts) (waits : (n : ℕ) → by.wait n ≡ none)
    (rewinds : (n : ℕ) → rewind_at by n ≡ none) (sleeps : (n : ℕ) → by.sleep n ≡ none) where
  attempts-settles :
      (j r n k : ℕ) (delays : List ℤ) (result : Result)
      → n + j ≡ k
      → ((i : ℕ) → i < k → conclusive kinds (send i) ≡ none)
      → conclusive kinds (send k) ≡ some result
      → j ≤ r
      → ((attempts go kinds t send by r n delays).result ≡ result)
        × ((attempts go kinds t send by r n delays).sends ≡ k + 1)
  unfolding attempts
  attempts-settles zero zero n k delays result sum fails settles enough =
      let here : (k ≡ n) = omega (arith, sum) in
      let now : (conclusive kinds (send n) ≡ some result) =
        subst (λ m. conclusive kinds (send m) ≡ some result) here settles in
      ground (arith, waits n, rewinds n, now, here)
  attempts-settles zero (suc r) n k delays result sum fails settles enough =
      let here : (k ≡ n) = omega (arith, sum) in
      let now : (conclusive kinds (send n) ≡ some result) =
        subst (λ m. conclusive kinds (send m) ≡ some result) here settles in
      ground (arith, waits n, rewinds n, now, here)
  attempts-settles (suc j) zero n k delays result sum fails settles enough = ground (arith, enough)
  attempts-settles (suc j) (suc r) n k delays result sum fails settles enough =
      let again = fails n (omega (arith, sum)) in
      let rest =
        attempts-settles j r (n + 1) k
          (delays ++ calculate_delay go t n (response_of (send n)) ∷ []) result (omega (arith, sum))
          fails settles (omega (arith, enough)) in
      ground (arith, waits n, rewinds n, again, sleeps n, rest)

  -- Where nothing interrupts a trip and answer `k` is the first that is not to be retried, within the
  -- attempts allowed, the trip returns that answer after `k + 1` sends.
  pub round_trip-settles :
      (k : ℕ) (result : Result)
      → ((i : ℕ) → i < k → conclusive kinds (send i) ≡ none)
      → conclusive kinds (send k) ≡ some result
      → k ≤ t.max_retries
      → ((round_trip go kinds t send by).result ≡ result)
        × ((round_trip go kinds t send by).sends ≡ k + 1)
  unfolding round_trip
  round_trip-settles k result fails settles enough =
      attempts-settles k t.max_retries 0 k [] result (omega arith) fails settles enough
