-- ===== src/Geranos/RateLimit/Laws.antt =====
-- cmd/geranos/ratelimitroundtrip.go: how many requests the registry gets.
use registry_k8s_io.Geranos.RateLimit.{
  Network, registry_rate_limit, RateLimitRoundTripper, Trip, waiting, sending, answered, round_trip,
  trip_step, sent_by, after_wait, Traffic, TrafficStep, TrafficReach,
}
use registry_k8s_io.Prelude.Actions.{◌>>=◌}
use registry_k8s_io.Prelude.{
  ℕ, ◌+◌, ◌-◌, ◌*◌, ◌≤◌, ◌≡◌, refl, sym, ap, subst, arith, List, [], ◌∷◌, ◌++◌, length,
  length-append, Result, ok, err,
}

-- In nanoseconds.
abbrev pub second : ℕ
second = 1000000000

-- The documented token bucket. `now` is the clock, and `filled` the instant at which the bucket is full
-- again, times the limit, so that each event moves it by one second: the bucket never lacks more than
-- the burst.
pub record IsTokenBucket (N : Network) (l : N.Limiter) (limit burst : ℕ) (now filled : N.State → ℕ)
    : Type 0 where
  pub wait_now : (s : N.State) → now s ≤ now (N.wait l s).1
  pub wait_ok : (s : N.State) → (N.wait l s).0 ≡ ok tt → filled s + second ≤ filled (N.wait l s).1
  pub wait_full :
      (s : N.State)
      → (N.wait l s).0 ≡ ok tt
      → filled (N.wait l s).1 ≤ limit * now (N.wait l s).1 + burst * second
  pub wait_err :
      (s : N.State) (message : _) → (N.wait l s).0 ≡ err message → filled (N.wait l s).1 ≡ filled s
  pub send_now : (r : N.Request) (s : N.State) → now s ≤ now (N.default_transport r s).1
  pub send_filled : (r : N.Request) (s : N.State) → filled (N.default_transport r s).1 ≡ filled s

module _ (N : Network) where
  -- The two calls of a round trip, one after the other, for any limiter and transport.
  pub round_trip-trip_step :
      (rt : RateLimitRoundTripper N) (r : N.Request) (s : N.State)
      → (let (trip, s') = trip_step N rt (waiting r) s in trip_step N rt trip s')
        ≡ (answered (round_trip N rt r s).0, (round_trip N rt r s).1)
  unfolding round_trip trip_step
  round_trip-trip_step rt r s = go (N.wait rt.rate_limiter s).0 (N.wait rt.rate_limiter s).1
    where
      rest : Result (Unit {0}) → N.State → Result N.Response × N.State
      rest e s' = ◌>>=◌ (λ (x : N.State). (e, s')) (λ _. rt.round_tripper r) s

      go :
          (e : Result (Unit {0})) (s' : N.State)
          → trip_step N rt (after_wait N rt r e) s' ≡ (answered (rest e s').0, (rest e s').1)
      go (ok x) s' = refl
      go (err message) s' = refl

  -- Requests that the limiter has let through and that are not sent.
  abbrev charge : Trip N → ℕ
  charge (waiting r) = 0
  charge (sending r) = 1
  charge (answered a) = 0

  abbrev charges : List (Trip N) → ℕ
  charges [] = 0
  charges (trip ∷ l) = charge trip + charges l

  charges-append : (l k : List (Trip N)) → charges (l ++ k) ≡ charges l + charges k
  charges-append [] k = omega arith
  charges-append (trip ∷ l) k = omega (arith, charges-append l k)

  module _ (now filled : N.State → ℕ)
      (B : IsTokenBucket N (N.new_limiter 80 1) 80 1 now filled) where
    abbrev rt : RateLimitRoundTripper N
    rt = registry_rate_limit N

    -- What holds of the requests so far that were let through, and a state.
    record IsPaced (s : N.State) (n : ℕ) (t : N.State) : Type 0 where
      spent : n * second + 80 * now s ≤ filled t
      full : filled t ≤ 80 * now t + second

    recount : (s : N.State) (n m : ℕ) (t : N.State) → IsPaced s n t → m ≡ n → IsPaced s m t
    recount s n m t h e = subst (λ k. IsPaced s k t) (sym e) h

    -- The requests of one trip after its next call, and before.
    advance-IsPaced :
        (s t : N.State) (trip : Trip N) (n : ℕ)
        → IsPaced s (charge trip + n) t
        → IsPaced s
            (length (sent_by N rt trip) + charge (trip_step N rt trip t).0 + n)
            (trip_step N rt trip t).1
    unfolding trip_step sent_by registry_rate_limit
    advance-IsPaced s t (waiting r) n h = go (N.wait (N.new_limiter 80 1) t).0 refl
      where
        after : N.State
        after = (N.wait (N.new_limiter 80 1) t).1

        go :
            (e : Result (Unit {0}))
            → (N.wait (N.new_limiter 80 1) t).0 ≡ e
            → IsPaced s (0 + charge (after_wait N rt r e) + n) (N.wait (N.new_limiter 80 1) t).1
        go (ok x) e = record {
          spent = omega (arith, h.spent, B.wait_ok t e);
          full = omega (arith, B.wait_full t e);
        }
        go (err message) e = record {
          spent = omega (arith, h.spent, B.wait_err t message e);
          full = omega (arith, h.full, B.wait_err t message e, B.wait_now t);
        }
    advance-IsPaced s t (sending r) n h = record {
      spent = omega (arith, h.spent, B.send_filled r t);
      full = omega (arith, h.full, B.send_filled r t, B.send_now r t);
    }
    advance-IsPaced s t (answered a) n h = h

    abbrev Paced : N.State → Traffic N rt → Type 0
    Paced s t = IsPaced s (length t.sent + charges t.trips) t.state

    reach-IsPaced :
        (s : N.State) (t : Traffic N rt) → TrafficReach N rt s t → filled s ≡ 80 * now s → Paced s t
    reach-IsPaced s t (TrafficReach.quiet q) h =
        subst (Paced s) (sym q) (record { spent = omega (arith, h); full = omega (arith, h) })
    reach-IsPaced s t (TrafficReach.next {t = t'} r (TrafficStep.begin request q)) h =
        subst (Paced s) (sym q) (recount s _ _ t'.state (reach-IsPaced s t' r h) (omega arith))
    reach-IsPaced s t (TrafficReach.next {t = t'} r (TrafficStep.advance before after trip e q)) h =
        let others : ℕ = length t'.sent + charges before + charges after in
        let i : IsPaced s (charge trip + others) t'.state =
          recount s (length t'.sent + charges t'.trips) (charge trip + others) t'.state
            (reach-IsPaced s t' r h)
            (omega (arith, ap charges e, charges-append before (trip ∷ after))) in
        subst (Paced s) (sym q) (
          recount s _ _ (trip_step N rt trip t'.state).1 (advance-IsPaced s t'.state trip others i)
            (omega (
              arith,
              charges-append before ((trip_step N rt trip t'.state).0 ∷ after),
              length-append (sent_by N rt trip) t'.sent,
            )))

    -- Of the requests to the registry, however many goroutines make them, no more are sent within a time
    -- than 80 in each second and one: if the limiter that is made for 80 a second and a burst of one is a
    -- token bucket as documented, which is full at the start.
    pub sent-bounded :
        (s : N.State) (t : Traffic N rt)
        → TrafficReach N rt s t
        → filled s ≡ 80 * now s
        → length t.sent * second ≤ 80 * (now t.state - now s) + second
    sent-bounded s t r h = let i = reach-IsPaced s t r h in omega (arith, i.spent, i.full)
