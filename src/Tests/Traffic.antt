-- ===== src/Tests/Traffic.antt =====
-- The rate limiter's theorem for a clock in nanoseconds, and two requests of which one is sent.
use registry_k8s_io.Geranos.RateLimit.{
  Network, registry_rate_limit, new_rate_limit_round_tripper, Trip, waiting, sending, trip_step,
  sent_by, Traffic, TrafficStep, TrafficReach,
}
use registry_k8s_io.Geranos.RateLimit.Laws.{second, IsTokenBucket, sent-bounded}
use registry_k8s_io.Prelude.{
  ℕ, ◌+◌, ◌-◌, ◌*◌, ◌≤◌, refl, arith, ltb, [], ◌∷◌, length, Text, codes, ok, if◌then◌else◌,
}

-- The state is the time, and the instant at which the bucket is full again.
abbrev network : Network
network = record {
  State = ℕ × ℕ;
  Limiter = ℕ × ℕ;
  Request = Text;
  Response = Text;
  new_limiter = λ limit burst. (limit, burst);
  wait =
      λ l s. let start : ℕ = if ltb s.0 s.1 then s.1 else s.0 in (ok tt, (start, start + 12500000));
  default_transport = λ r s. (ok r, (s.0 + 1000, s.1));
}

bucket : IsTokenBucket network (80, 1) 80 1 (λ s. s.0) (λ s. 80 * s.1)
bucket = record {
  wait_now = λ s. ground arith;
  wait_ok = λ s e. ground arith;
  wait_full = λ s e. ground arith;
  wait_err = λ s message e. absurd cc;
  send_now = λ r s. omega arith;
  send_filled = λ r s. refl;
}

abbrev traffic : Traffic network (registry_rate_limit network)
traffic = record {
  trips = sending (codes "a") ∷ Trip.answered (ok (codes "b")) ∷ [];
  sent = codes "b" ∷ [];
  state = (12500000, 25000000);
}

one_sent : TrafficReach network (registry_rate_limit network) (0, 0) traffic
unfolding registry_rate_limit new_rate_limit_round_tripper trip_step sent_by
one_sent =
    TrafficReach.next
      (TrafficReach.next
        (TrafficReach.next
          (TrafficReach.next
            (TrafficReach.next (TrafficReach.quiet refl) (TrafficStep.begin (codes "b") refl))
            (TrafficStep.advance [] [] (waiting (codes "b")) refl refl))
          (TrafficStep.advance [] [] (sending (codes "b")) refl refl))
        (TrafficStep.begin (codes "a") refl))
      (TrafficStep.advance [] (Trip.answered (ok (codes "b")) ∷ []) (waiting (codes "a")) refl refl)

sent-bounded_example : length (codes "b" ∷ []) * second ≤ 80 * (12500000 - 0) + second
sent-bounded_example =
    sent-bounded network (λ s. s.0) (λ s. 80 * s.1) bucket (0, 0) traffic one_sent refl
