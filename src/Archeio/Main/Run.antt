-- ===== src/Archeio/Main/Run.antt =====
-- cmd/archeio: what a process answers from its start to its end.
use registry_k8s_io.Archeio.Cache.{BlobCache, Remote, cache_get}
use registry_k8s_io.Archeio.Cache.Laws.{IsThere}
use registry_k8s_io.Archeio.Config.{RegistryConfig, registry_config}
use registry_k8s_io.Archeio.Handlers.{Response, error, redirect, not_found, status, handle}
use registry_k8s_io.Archeio.Handlers.Safety.{
  info, privacy, upstream, signature, bucket, IsSafe, handle-IsSafe, handle-IsGrown,
}
use registry_k8s_io.Archeio.Main.{
  Phase, serving, stopping, ended, Event, request, listen_returned, signalled, shutdown_returned,
  Process, Entry, answer, in_phase, main_run, main_start, http_server,
}
use registry_k8s_io.Archeio.Server.{server}
use registry_k8s_io.Cidrs.Mapping.{Mapping}
use registry_k8s_io.Clientip.{Net, Request}
use registry_k8s_io.Cloudcidrs.{IpInfo}
use registry_k8s_io.Prelude.GoMap.{lookup}
use registry_k8s_io.Prelude.{
  ℕ, ◌≡◌, ◌≢◌, inl, inr, refl, ap, Bool, true, false, Bool-cases, eqb, Option, none, some, List, [],
  ◌∷◌, Text, if◌then◌else◌,
}

abbrev pub answers_ok : Option ℕ → Bool
answers_ok none = false
answers_ok (some code) = eqb code 200

-- Buckets that have what some check of a request in the log has been answered for with 200.
abbrev pub seen : List Entry → Remote
seen [] url = none
seen (e ∷ log) url = let rest = seen log url in if answers_ok (e.remote url) then some 200 else rest

answers_ok-200 : (a : Option ℕ) → a ≡ some 200 → answers_ok a ≡ true
answers_ok-200 a e = ap answers_ok e

seen-now :
    (e : Entry) (log : List Entry) (url : Text)
    → e.remote url ≡ some 200
    → seen (e ∷ log) url ≡ some 200
seen-now e log url h = rw (answers_ok-200 (e.remote url) h) refl

seen-later :
    (e : Entry) (log : List Entry) (url : Text)
    → seen log url ≡ some 200
    → seen (e ∷ log) url ≡ some 200
seen-later e log url h = elim (Bool-cases (answers_ok (e.remote url))) [
  | inl q ↦ rw q refl
  | inr q ↦ rw q h
]

not_cached : (url : Text) → cache_get [] url ≢ true
unfolding cache_get lookup
not_cached url e = cc

module _ (net : Net) (table : Mapping IpInfo) (lookup_env : Text → Option Text)
    (shutdown : ℕ → Option Text) where
  abbrev rc : RegistryConfig
  rc = registry_config lookup_env

  IsSafe-imp :
      (head head' : Remote) (r : Request) (b b' : BlobCache) (response : Response)
      → ((url : Text) → IsThere head b url → IsThere head' b' url)
      → IsSafe (server net table head) rc r b response
      → IsSafe (server net table head') rc r b' response
  unfolding server
  IsSafe-imp head head' r b b' (error message code) h s = tt
  IsSafe-imp head head' r b b' (redirect url code) h (e, t) = (
    e,
    elim t [
      | info p q ↦ info p q
      | privacy p q ↦ privacy p q
      | upstream p q ↦ upstream p q
      | signature n p q ↦ signature n p q
      | bucket d ip p c q there ↦ bucket d ip p c q (h url there)
    ],
  )
  IsSafe-imp head head' r b b' not_found h s = tt
  IsSafe-imp head head' r b b' (status code headers) h s = tt

  -- Each answer is safe by the checks up to its own request.
  abbrev pub IsHonest : List Entry → Type 0
  IsHonest [] = Unit
  IsHonest (e ∷ log) =
      IsSafe (server net table (seen (e ∷ log))) rc e.request [] e.response × IsHonest log

  record IsSound (p : Process) : Type 0 where
    cached : (url : Text) → cache_get p.blobs url ≡ true → seen p.log url ≡ some 200
    honest : IsHonest p.log

  there-seen :
      (e : Entry) (log : List Entry) (b : BlobCache) (url : Text)
      → ((u : Text) → cache_get b u ≡ true → seen log u ≡ some 200)
      → IsThere e.remote b url
      → seen (e ∷ log) url ≡ some 200
  there-seen e log b url h (inl c) = seen-later e log url (h url c)
  there-seen e log b url h (inr now) = seen-now e log url now

  answer-IsSound :
      (head : Remote) (r : Request) (p : Process)
      → IsSound p
      → IsSound (answer net table lookup_env shutdown head r p)
  unfolding answer http_server server
  answer-IsSound head r p i = record {
    cached = λ url c.
        there-seen entry p.log p.blobs url i.cached
          ((handle-IsGrown (server net table head) rc r p.blobs).1 url c);
    honest = (
      IsSafe-imp head (seen (entry ∷ p.log)) r p.blobs [] entry.response
          (λ url t. inr (there-seen entry p.log p.blobs url i.cached t))
          (handle-IsSafe (server net table head) rc r p.blobs),
      i.honest,
    );
  }
    where
      entry : Entry
      entry = record {
        remote = head;
        request = r;
        response = (handle (server net table head) rc r p.blobs).0;
      }

  in_phase-IsSound :
      (phase : Phase) (event : Event) (p : Process)
      → IsSound p
      → IsSound (in_phase net table lookup_env shutdown phase event p)
  unfolding in_phase
  in_phase-IsSound (ended x) event p i = i
  in_phase-IsSound serving (request head r) p i = answer-IsSound head r p i
  in_phase-IsSound serving (listen_returned e) p i = record { cached = i.cached; honest = i.honest }
  in_phase-IsSound serving signalled p i = record { cached = i.cached; honest = i.honest }
  in_phase-IsSound serving shutdown_returned p i = i
  in_phase-IsSound stopping (request head r) p i = answer-IsSound head r p i
  in_phase-IsSound stopping (listen_returned e) p i = record {
    cached = i.cached;
    honest = i.honest;
  }
  in_phase-IsSound stopping signalled p i = i
  in_phase-IsSound stopping shutdown_returned p i = record { cached = i.cached; honest = i.honest }

  main_run-IsSound :
      (events : List Event) (p : Process)
      → IsSound p
      → IsSound (main_run net table lookup_env shutdown events p)
  unfolding main_run
  main_run-IsSound [] p i = i
  main_run-IsSound (event ∷ events) p i =
      main_run-IsSound events (in_phase net table lookup_env shutdown p.phase event p)
        (in_phase-IsSound p.phase event p i)

  -- In every run of a process, whatever the environment, the table, and the order of its events,
  -- each redirect is temporary and goes to the project's page, the privacy policy, the path's
  -- address upstream or, for a signature, at the endpoint that is set for signatures, or the
  -- address of the path's digest in the bucket that serves the client; and the last only if at the
  -- time of that request or of an earlier one of the run the bucket would answer a HEAD request
  -- for the address with 200.
  pub main_run-IsHonest :
      (events : List Event)
      → IsHonest
          (main_run net table lookup_env shutdown events
            (main_start net table lookup_env shutdown)).log
  unfolding main_start
  main_run-IsHonest events =
      (main_run-IsSound events _
        (record { cached = λ url c. absurd (not_cached url c); honest = tt })).honest
