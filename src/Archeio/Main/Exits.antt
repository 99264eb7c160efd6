-- ===== src/Archeio/Main/Exits.antt =====
-- cmd/archeio/main.go: how a process ends.
use registry_k8s_io.Archeio.Main.{
  Exit, returned, fatal, server_closed, listen_failed, Phase, serving, stopping, ended, Event,
  request, listen_returned, signalled, shutdown_returned, Process, Entry, second, after_listen,
  after_shutdown, answer, in_phase, main_run, main_start,
}
use registry_k8s_io.Archeio.Cache.{BlobCache}
use registry_k8s_io.Cidrs.Mapping.{Mapping}
use registry_k8s_io.Clientip.{Net}
use registry_k8s_io.Cloudcidrs.{IpInfo}
use registry_k8s_io.Prelude.{
  ℕ, ◌*◌, ◌≡◌, ◌≢◌, ◌↔◌, refl, sym, ap, ◌∙◌, subst, Option, none, some, List, [], ◌∷◌, ◌++◌, All,
  All-append, append_assoc, Text,
}

-- An event that is no failure of `ListenAndServe`.
abbrev pub IsQuiet : Event → Type 0
IsQuiet (request head r) = Unit
IsQuiet (listen_returned none) = Unit
IsQuiet (listen_returned (some server_closed)) = Unit
IsQuiet (listen_returned (some (listen_failed message))) = ⊥
IsQuiet signalled = Unit
IsQuiet shutdown_returned = Unit

-- The events up to the return of `Shutdown` after a signal, without a failure.
abbrev pub IsGraceful : List Event → Type 0
IsGraceful events =
    (before : List Event) × (middle : List Event) × (after : List Event) × (events
      ≡ before ++ signalled ∷ (middle ++ shutdown_returned ∷ after))
    × All IsQuiet before
    × All IsQuiet middle

sooner :
    (event : Event) (events : List Event)
    → IsQuiet event
    → IsGraceful events
    → IsGraceful (event ∷ events)
sooner event events q (before, middle, after, e, quiet, quiet') =
    (event ∷ before, middle, after, ap (λ l. event ∷ l) e, (q, quiet), quiet')

module _ (net : Net) (table : Mapping IpInfo) (lookup_env : Text → Option Text)
    (shutdown : ℕ → Option Text) where
  abbrev run : List Event → Process → Process
  run = main_run net table lookup_env shutdown

  abbrev at : Phase → BlobCache → List Entry → Process
  at phase blobs log = record { phase = phase; blobs = blobs; log = log }

  run-ended :
      (events : List Event) (x : Exit) (b : BlobCache) (l : List Entry)
      → (run events (at (ended x) b l)).phase ≡ ended x
  unfolding main_run in_phase
  run-ended [] x b l = refl
  run-ended (event ∷ events) x b l = run-ended events x b l

  not_fatal : (message : Text) → ended (fatal message) ≢ ended returned
  not_fatal message e = cc

  -- A process that stops, by the events until `Shutdown` returns.
  abbrev IsStopped : List Event → Type 0
  IsStopped events =
      (middle : List Event) × (after : List Event) × (events ≡ middle ++ shutdown_returned ∷ after)
      × All IsQuiet middle

  later :
      (event : Event) (events : List Event)
      → IsQuiet event
      → IsStopped events
      → IsStopped (event ∷ events)
  later event events q (middle, after, e, quiet) =
      (event ∷ middle, after, ap (λ l. event ∷ l) e, (q, quiet))

  stopping-returned :
      (events : List Event) (b : BlobCache) (l : List Entry)
      → (run events (at stopping b l)).phase ≡ ended returned
      → IsStopped events × (shutdown (5 * second) ≡ none)
  unfolding main_run in_phase after_listen answer
  stopping-returned [] b l h = absurd cc
  stopping-returned (request head r ∷ events) b l h =
      let (s, e) = stopping-returned events _ _ h in (later (request head r) events tt s, e)
  stopping-returned (listen_returned none ∷ events) b l h =
      let (s, e) = stopping-returned events b l h in (later (listen_returned none) events tt s, e)
  stopping-returned (listen_returned (some server_closed) ∷ events) b l h =
      let (s, e) = stopping-returned events b l h in
      (later (listen_returned (some server_closed)) events tt s, e)
  stopping-returned (listen_returned (some (listen_failed message)) ∷ events) b l h =
      absurd (not_fatal message (sym (run-ended events (fatal message) b l) ∙ h))
  stopping-returned (signalled ∷ events) b l h =
      let (s, e) = stopping-returned events b l h in (later signalled events tt s, e)
  stopping-returned (shutdown_returned ∷ events) b l h =
      (([], events, refl, tt), go (shutdown (5 * second)) h)
    where
      go :
          (e : Option Text)
          → (run events (at (after_shutdown e) b l)).phase ≡ ended returned
          → e ≡ none
      go none h' = refl
      go (some message) h' = absurd (not_fatal _ (sym (run-ended events (fatal _) b l) ∙ h'))

  serving-returned :
      (events : List Event) (b : BlobCache) (l : List Entry)
      → (run events (at serving b l)).phase ≡ ended returned
      → IsGraceful events × (shutdown (5 * second) ≡ none)
  unfolding main_run in_phase after_listen answer
  serving-returned [] b l h = absurd cc
  serving-returned (request head r ∷ events) b l h =
      let (s, e) = serving-returned events _ _ h in (sooner (request head r) events tt s, e)
  serving-returned (listen_returned none ∷ events) b l h =
      let (s, e) = serving-returned events b l h in (sooner (listen_returned none) events tt s, e)
  serving-returned (listen_returned (some server_closed) ∷ events) b l h =
      let (s, e) = serving-returned events b l h in
      (sooner (listen_returned (some server_closed)) events tt s, e)
  serving-returned (listen_returned (some (listen_failed message)) ∷ events) b l h =
      absurd (not_fatal message (sym (run-ended events (fatal message) b l) ∙ h))
  serving-returned (signalled ∷ events) b l h =
      let ((middle, after, e, quiet), none_) = stopping-returned events b l h in
      (([], middle, after, ap (λ k. signalled ∷ k) e, tt, quiet), none_)
  serving-returned (shutdown_returned ∷ events) b l h =
      let (s, e) = serving-returned events b l h in (sooner shutdown_returned events tt s, e)

  run-stopping :
      (middle after : List Event) (b : BlobCache) (l : List Entry)
      → All IsQuiet middle
      → shutdown (5 * second) ≡ none
      → (run (middle ++ shutdown_returned ∷ after) (at stopping b l)).phase ≡ ended returned
  unfolding main_run in_phase after_listen answer
  run-stopping [] after b l q e =
      subst (λ r. (run after (at (after_shutdown r) b l)).phase ≡ ended returned) (sym e)
        (run-ended after returned b l)
  run-stopping (request head r ∷ middle) after b l q e = run-stopping middle after _ _ q.1 e
  run-stopping (listen_returned none ∷ middle) after b l q e = run-stopping middle after b l q.1 e
  run-stopping (listen_returned (some server_closed) ∷ middle) after b l q e =
      run-stopping middle after b l q.1 e
  run-stopping (listen_returned (some (listen_failed message)) ∷ middle) after b l q e = absurd q.0
  run-stopping (signalled ∷ middle) after b l q e = run-stopping middle after b l q.1 e
  run-stopping (shutdown_returned ∷ middle) after b l q e =
      subst
        (λ r.
          (run (middle ++ shutdown_returned ∷ after) (at (after_shutdown r) b l)).phase
          ≡ ended returned)
        (sym e) (run-ended (middle ++ shutdown_returned ∷ after) returned b l)

  run-serving :
      (before middle after : List Event) (b : BlobCache) (l : List Entry)
      → All IsQuiet before
      → All IsQuiet middle
      → shutdown (5 * second) ≡ none
      → (run (before ++ signalled ∷ (middle ++ shutdown_returned ∷ after)) (at serving b l)).phase
        ≡ ended returned
  unfolding main_run in_phase after_listen answer
  run-serving [] middle after b l q k e = run-stopping middle after b l k e
  run-serving (request head r ∷ before) middle after b l q k e =
      run-serving before middle after _ _ q.1 k e
  run-serving (listen_returned none ∷ before) middle after b l q k e =
      run-serving before middle after b l q.1 k e
  run-serving (listen_returned (some server_closed) ∷ before) middle after b l q k e =
      run-serving before middle after b l q.1 k e
  run-serving (listen_returned (some (listen_failed message)) ∷ before) middle after b l q k e =
      absurd q.0
  run-serving (signalled ∷ before) middle after b l q k e =
      subst (λ events. (run events (at stopping b l)).phase ≡ ended returned)
        (append_assoc before (signalled ∷ middle) (shutdown_returned ∷ after))
        (run-stopping (before ++ signalled ∷ middle) after b l
          (All-append IsQuiet before (signalled ∷ middle) q.1 (tt, k)) e)
  run-serving (shutdown_returned ∷ before) middle after b l q k e =
      run-serving before middle after b l q.1 k e

  -- The process returns from `main` exactly if it gets a signal and `Shutdown` returns after it,
  -- without an error for its 5 seconds, and `ListenAndServe` has not failed before with another
  -- error than that of a server that was closed.
  pub main_run-returned_iff :
      (events : List Event)
      → (run events (main_start net table lookup_env shutdown)).phase ≡ ended returned
        ↔ IsGraceful events × (shutdown (5 * second) ≡ none)
  unfolding main_start
  main_run-returned_iff events = (
    serving-returned events [] [],
    λ ((before, middle, after, e, q, k), none_).
        subst (λ l. (run l (main_start net table lookup_env shutdown)).phase ≡ ended returned)
          (sym e) (run-serving before middle after [] [] q k none_),
  )
