-- ===== src/Geranos/Crowd/Dry.antt =====
-- cmd/geranos: a dry run in which the calls of the jobs interleave.
use registry_k8s_io.Geranos.Crowd.{Goroutine, Crowd, call, start_crowd, CrowdStep, CrowdReach}
use registry_k8s_io.Geranos.Store.{Service, IsLawful}
use registry_k8s_io.Geranos.Threads.{Thread, finished, head_call, put_call}
use registry_k8s_io.Geranos.Threads.Dry.{IsReadOnly, job_thread-IsReadOnly}
use registry_k8s_io.Geranos.Uploader.{Registry, S3Uploader}
use registry_k8s_io.Geranos.Walk.{Client, Job}
use registry_k8s_io.Prelude.{
  ◌≡◌, refl, sym, ◌∙◌, subst, Bool, true, some, some_inj, List, ◌∷◌, All, All-append, All-split,
  Text, Result,
}

module _ (S : Service) (stored : S.State → Text → Text → Bool) (L : IsLawful S stored)
    (g : Registry) (u : S3Uploader) (bucket : Text) (c : Client) (jobs : List Job)
    (walked : Result (Unit {0})) where
  -- What is stored is the same in two states.
  abbrev SameStored : S.State → S.State → Type 0
  SameStored s t = (b k : Text) → stored t b k ≡ stored s b k

  abbrev Reads : Goroutine → Type 0
  Reads (job, thread) = IsReadOnly thread

  call-Reads :
      (thread thread' : Thread (Result (Unit {0}))) (s s' : S.State)
      → IsReadOnly thread
      → call S thread s ≡ some (thread', s')
      → IsReadOnly thread' × SameStored s s'
  unfolding call IsReadOnly
  call-Reads (finished a) thread' s s' h e = absurd cc
  call-Reads (head_call bucket' key next) thread' s s' h e =
      subst (λ (r : Thread (Result (Unit {0})) × S.State). IsReadOnly r.0 × SameStored s r.1)
        (some_inj e) (h (S.head_object s bucket' key).0, λ b k. L.head_keeps s bucket' key b k)
  call-Reads (put_call i next) thread' s s' h e = absurd h

  -- What holds at every moment.
  record IsSound (s : S.State) (t : Crowd S.State) : Type 0 where
    same : SameStored s t.state
    reads : All Reads t.active

  module _ (e : u.dry_run ≡ true) where
    step-IsSound :
        (s : S.State) (t v : Crowd S.State)
        → IsSound s t
        → CrowdStep S g u bucket c jobs walked t v
        → IsSound s v
    step-IsSound s t v i (CrowdStep.start job rest w' e' room q) =
        subst (IsSound s) (sym q)
          (record { same = i.same; reads = (job_thread-IsReadOnly g u bucket e c job, i.reads) })
    step-IsSound s t v i (CrowdStep.advance before after job thread thread' state' e' e'' q) =
        let parts = All-split Reads before ((job, thread) ∷ after) (subst (All Reads) e' i.reads) in
        let (reads, same) = call-Reads thread thread' t.state state' parts.1.0 e'' in
        subst (IsSound s) (sym q) (record {
          same = λ b k. same b k ∙ i.same b k;
          reads = All-append Reads before ((job, thread') ∷ after) parts.0 (reads, parts.1.1);
        })
    step-IsSound s t v i (CrowdStep.finish before after job r e' q) =
        let parts =
          All-split Reads before ((job, finished r) ∷ after) (subst (All Reads) e' i.reads) in
        subst (IsSound s) (sym q)
          (record { same = i.same; reads = All-append Reads before after parts.0 parts.1.1 })
    step-IsSound s t v i (CrowdStep.walk_ends w' e' q) =
        subst (IsSound s) (sym q) (record { same = i.same; reads = i.reads })

    reach-IsSound :
        (s : S.State) (t : Crowd S.State) → CrowdReach S g u bucket c jobs walked s t → IsSound s t
    unfolding start_crowd
    reach-IsSound s t (CrowdReach.begin q) =
        subst (IsSound s) (sym q) (record { same = λ b k. refl; reads = tt })
    reach-IsSound s t (CrowdReach.next {t = t'} r step) =
        step-IsSound s t' t (reach-IsSound s t' r) step

    -- At every moment of a dry run over a lawful service, however the calls of its jobs interleave
    -- and whatever they are answered, every key of every bucket is stored if and only if it was at
    -- the start.
    pub crowd-dry :
        (s : S.State) (t : Crowd S.State)
        → CrowdReach S g u bucket c jobs walked s t
        → (b k : Text) → stored t.state b k ≡ stored s b k
    crowd-dry s t r b k = (reach-IsSound s t r).same b k
