-- ===== src/Geranos/RateLimit.antt =====
-- cmd/geranos/ratelimitroundtrip.go: round trips that wait for a limiter, of goroutines that run at
-- once. The limiter of golang.org/x/time/rate and the transport are parameters, over an unknown state
-- of the clock and the network.
pub mod Laws
use registry_k8s_io.Prelude.Actions.{Action, ◌>>=◌, ◌>>◌}
use registry_k8s_io.Prelude.{ℕ, ◌≡◌, List, [], ◌∷◌, ◌++◌, Result, ok, err}

-- What the code uses of the packages rate and net/http.
pub record Network : Type 1 where
  pub State : Type 0
  pub Limiter : Type 0
  pub Request : Type 0
  pub Response : Type 0
  pub new_limiter : ℕ → ℕ → Limiter
  pub wait : Limiter → State → Result (Unit {0}) × State
  pub default_transport : Request → State → Result Response × State

module _ (N : Network) where
  pub record RateLimitRoundTripper : Type 0 where
    pub rate_limiter : N.Limiter
    pub round_tripper : N.Request → Action N.State N.Response

  unfoldable pub new_rate_limit_round_tripper : ℕ → RateLimitRoundTripper
  new_rate_limit_round_tripper limit = record {
    rate_limiter = N.new_limiter limit 1;
    round_tripper = N.default_transport;
  }

  -- The limiter that `Run` gives to the registry's clients.
  unfoldable pub registry_rate_limit : RateLimitRoundTripper
  unfolding new_rate_limit_round_tripper
  registry_rate_limit = new_rate_limit_round_tripper 80

  -- How far a round trip is.
  pub data Trip : Type 0 where
    waiting : N.Request → Trip
    sending : N.Request → Trip
    answered : Result N.Response → Trip

  module _ (rt : RateLimitRoundTripper) where
    unfoldable pub round_trip : N.Request → Action N.State N.Response
    round_trip r = N.wait rt.rate_limiter >> rt.round_tripper r

    abbrev pub after_wait : N.Request → Result (Unit {0}) → Trip
    after_wait r (ok x) = sending r
    after_wait r (err message) = answered (err message)

    -- Its next call.
    unfoldable pub trip_step : Trip → N.State → Trip × N.State
    trip_step (waiting r) s = let (e, s') = N.wait rt.rate_limiter s in (after_wait r e, s')
    trip_step (sending r) s = let (a, s') = rt.round_tripper r s in (answered a, s')
    trip_step (answered a) s = (answered a, s)

    -- What that call sends.
    unfoldable pub sent_by : Trip → List N.Request
    sent_by (waiting r) = []
    sent_by (sending r) = r ∷ []
    sent_by (answered a) = []

    -- The round trips of all goroutines, and the requests that were sent.
    pub record Traffic : Type 0 where
      pub trips : List Trip
      pub sent : List N.Request
      pub state : N.State

    pub data TrafficStep (s t : Traffic) : Type 0 where
      begin : (r : N.Request) → t ≡ record s { trips = waiting r ∷ s.trips } → TrafficStep s t
      advance :
          (before after : List Trip) (trip : Trip)
          → s.trips ≡ before ++ trip ∷ after
          → t ≡ record {
            trips = before ++ (trip_step trip s.state).0 ∷ after;
            sent = sent_by trip ++ s.sent;
            state = (trip_step trip s.state).1;
          }
          → TrafficStep s t

    pub data TrafficReach (s : N.State) : Traffic → Type 0 where
      quiet : {t : Traffic} → t ≡ record { trips = []; sent = []; state = s } → TrafficReach s t
      next : {t v : Traffic} → TrafficReach s t → TrafficStep t v → TrafficReach s v
