-- ===== src/Archeio/Cache/Steps.antt =====
-- cmd/archeio/internal/app/buckets.go: `BlobExists` of concurrent requests. The map is a sync.Map,
-- so each read and each write of it is one step; between a miss and the answer of the remote check
-- other requests take steps.
use mathlib.Core.List.{Memᴰ}
use registry_k8s_io.Archeio.Cache.{BlobCache, cache_get, cache_put, new_cached_blob_checker}
use registry_k8s_io.Prelude.{
  ℕ, ◌≡◌, ◌≢◌, refl, sym, ap, subst, arith, Bool, true, false, List, [], ◌∷◌, ◌++◌, Text, text_beq,
  text_beq_iff, text_eq, inl, inr, if◌then◌else◌, Bool-cases,
}
use registry_k8s_io.Prelude.GoMap.{lookup, lookup-store}

-- The cache, the requests that wait for a remote answer, the answers so far, and the results.
pub record Checker : Type 0 where
  pub cache : BlobCache
  pub waiting : List Text
  pub answers : List (Text × ℕ)
  pub results : List (Text × Bool)

abbrev pub start : Checker
start = record { cache = new_cached_blob_checker; waiting = []; answers = []; results = [] }

pub data Step (s t : Checker) : Type 0 where
  hit :
      (url : Text)
      → cache_get s.cache url ≡ true
      → t ≡ record s { results = (url, true) ∷ s.results }
      → Step s t
  miss :
      (url : Text)
      → cache_get s.cache url ≡ false
      → t ≡ record s { waiting = url ∷ s.waiting }
      → Step s t
  unreachable :
      (before after : List Text) (url : Text)
      → s.waiting ≡ before ++ url ∷ after
      → t ≡ record s { waiting = before ++ after; results = (url, false) ∷ s.results }
      → Step s t
  found :
      (before after : List Text) (url : Text)
      → s.waiting ≡ before ++ url ∷ after
      → t ≡ record {
        cache = cache_put s.cache url;
        waiting = before ++ after;
        answers = (url, 200) ∷ s.answers;
        results = (url, true) ∷ s.results;
      }
      → Step s t
  refused :
      (before after : List Text) (url : Text) (code : ℕ)
      → s.waiting ≡ before ++ url ∷ after
      → code ≢ 200
      → t ≡ record s {
        waiting = before ++ after;
        answers = (url, code) ∷ s.answers;
        results = (url, false) ∷ s.results;
      }
      → Step s t

pub data Reach (s : Checker) : Checker → Type 0 where
  here : Reach s s
  next : {t u : Checker} → Reach s t → Step t u → Reach s u

pub cache_get-put :
    (c : BlobCache) (url u : Text)
    → cache_get (cache_put c url) u ≡ (if text_beq url u then true else cache_get c u)
unfolding cache_get cache_put
cache_get-put c url u = ground (arith, lookup-store url u tt c)

-- What is cached, and what a request was told to exist, the remote has answered with 200.
pub record IsSound (s : Checker) : Type 0 where
  pub cached : (u : Text) → cache_get s.cache u ≡ true → Memᴰ (u, 200) s.answers
  pub told : (u : Text) → Memᴰ (u, true) s.results → Memᴰ (u, 200) s.answers

told_more :
    {answers : List (Text × ℕ)} {results : List (Text × Bool)} (url : Text) (b : Bool)
    → (b ≡ true → Memᴰ (url, 200) answers)
    → ((u : Text) → Memᴰ (u, true) results → Memᴰ (u, 200) answers)
    → (u : Text) → Memᴰ (u, true) ((url, b) ∷ results)
    → Memᴰ (u, 200) answers
told_more {answers} url b h k u (Memᴰ.head e) =
    let same : u ≡ url = ap (λ (x : Text × Bool). x.0) e in
    subst (λ x. Memᴰ (x, 200) answers) (sym same) (h (sym (ap (λ (x : Text × Bool). x.1) e)))
told_more url b h k u (Memᴰ.tail m) = k u m

Step-IsSound : {s t : Checker} → Step s t → IsSound s → IsSound t
Step-IsSound (hit url c e) v =
    rw e (record { cached = v.cached; told = told_more url true (λ _. v.cached url c) v.told })
Step-IsSound (miss url c e) v = rw e (record { cached = v.cached; told = v.told })
Step-IsSound (unreachable before after url w e) v =
    rw e (record { cached = v.cached; told = told_more url false (λ q. cc) v.told })
Step-IsSound {s} (found before after url w e) v = rw e (record {
  cached = λ u c. elim (Bool-cases (text_beq url u)) [
    | inl same ↦ Memᴰ.head (ap (λ (x : Text). (x, 200)) (sym ((text_beq_iff url u).0 same)))
    | inr other ↦ Memᴰ.tail (v.cached u (rw (cache_get-put s.cache url u, other) at c))
  ];
  told = told_more url true (λ _. Memᴰ.head refl) (λ u m. Memᴰ.tail (v.told u m));
})
Step-IsSound (refused before after url code w n e) v = rw e (record {
  cached = λ u c. Memᴰ.tail (v.cached u c);
  told = told_more url false (λ q. cc) (λ u m. Memᴰ.tail (v.told u m));
})

start-IsSound : IsSound start
unfolding cache_get lookup
start-IsSound = record { cached = λ u c. cc; told = λ u m. elim m [ ] }

-- However the steps of concurrent requests interleave, an address that is in the cache, and one
-- that a request was told to exist, has been answered with 200 before.
pub Reach-IsSound : {s : Checker} → Reach start s → IsSound s
Reach-IsSound here = start-IsSound
Reach-IsSound (next r st) = Step-IsSound st (Reach-IsSound r)

Step-cached :
    {s t : Checker} (u : Text) → Step s t → cache_get s.cache u ≡ true → cache_get t.cache u ≡ true
Step-cached u (hit url c e) h = rw e h
Step-cached u (miss url c e) h = rw e h
Step-cached u (unreachable before after url w e) h = rw e h
Step-cached {s} u (found before after url w e) h =
    rw e (ground (arith, cache_get-put s.cache url u))
Step-cached u (refused before after url code w n e) h = rw e h

-- What is cached stays cached, however the steps of concurrent requests interleave.
pub Reach-cached :
    {s t : Checker} (u : Text) → Reach s t → cache_get s.cache u ≡ true → cache_get t.cache u ≡ true
Reach-cached u here h = h
Reach-cached u (next r st) h = Step-cached u st (Reach-cached u r h)
