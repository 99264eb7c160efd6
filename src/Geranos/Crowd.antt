-- ===== src/Geranos/Crowd.antt =====
-- cmd/geranos/walkimages.go: the group of `WalkImageLayersGCP`, with the calls of its goroutines
-- one by one: between two calls of a job the others make theirs. The walk is one of the goroutines
-- and starts the others, each when there is room.
pub mod Laws
pub mod Ends
pub mod Dry
use registry_k8s_io.Geranos.Store.{Service}
use registry_k8s_io.Geranos.Threads.{Thread, finished, head_call, put_call, job_thread}
use registry_k8s_io.Geranos.Uploader.{Registry, S3Uploader}
use registry_k8s_io.Geranos.Walk.{Client, Job}
use registry_k8s_io.Prelude.{
  ℕ, ◌+◌, ◌<◌, ◌≡◌, Bool, true, false, Option, none, some, List, [], ◌∷◌, ◌++◌, length, Text,
  Result, ok, err, keep_first,
}

-- `g.SetLimit(1000)`
abbrev pub group_limit : ℕ
group_limit = 1000

abbrev pub Goroutine : Type 0
Goroutine = Job × Thread (Result (Unit {0}))

-- Whether the walk runs, the jobs that it is still to start, the goroutines of those that run, the
-- state of the service, and the group's first error.
pub record Crowd (State : Type 0) : Type 0 where
  pub walking : Bool
  pub waiting : List Job
  pub active : List Goroutine
  pub state : State
  pub result : Result (Unit {0})

abbrev pub IsOver : {State : Type 0} → Crowd State → Type 0
IsOver s = (s.walking ≡ false) × (s.waiting ≡ []) × (s.active ≡ [])

module _ (S : Service) where
  -- The next call of a thread.
  unfoldable pub call : {A : Type 0} → Thread A → S.State → Option (Thread A × S.State)
  call (finished a) s = none
  call (head_call bucket key next) s =
      let (answer, s') = S.head_object s bucket key in some (next answer, s')
  call (put_call i next) s = let (answer, s') = S.upload s i in some (next answer, s')

  module _ (g : Registry) (u : S3Uploader) (bucket : Text) (c : Client) (jobs : List Job)
      (walked : Result (Unit {0})) where
    unfoldable pub start_crowd : S.State → Crowd S.State
    start_crowd s = record {
      walking = true;
      waiting = jobs;
      active = [];
      state = s;
      result = ok tt;
    }

    -- The walk starts a job, a goroutine makes a call, a goroutine ends, or the walk ends.
    pub data CrowdStep (s t : Crowd S.State) : Type 0 where
      start :
          (job : Job) (rest : List Job)
          → s.walking ≡ true
          → s.waiting ≡ job ∷ rest
          → length s.active + 1 < group_limit
          → t ≡ record s { waiting = rest; active = (job, job_thread g u bucket c job) ∷ s.active }
          → CrowdStep s t
      advance :
          (before after : List Goroutine) (job : Job) (thread thread' : Thread (Result (Unit {0})))
          (state' : S.State)
          → s.active ≡ before ++ (job, thread) ∷ after
          → call thread s.state ≡ some (thread', state')
          → t ≡ record s { active = before ++ (job, thread') ∷ after; state = state' }
          → CrowdStep s t
      finish :
          (before after : List Goroutine) (job : Job) (r : Result (Unit {0}))
          → s.active ≡ before ++ (job, finished r) ∷ after
          → t ≡ record s { active = before ++ after; result = keep_first s.result r }
          → CrowdStep s t
      walk_ends :
          s.walking ≡ true
          → s.waiting ≡ []
          → t ≡ record s { walking = false; result = keep_first s.result walked }
          → CrowdStep s t

    pub data CrowdReach (s : S.State) : Crowd S.State → Type 0 where
      begin : {t : Crowd S.State} → t ≡ start_crowd s → CrowdReach s t
      next : {t v : Crowd S.State} → CrowdReach s t → CrowdStep t v → CrowdReach s v
