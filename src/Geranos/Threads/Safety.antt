-- ===== src/Geranos/Threads/Safety.antt =====
-- cmd/geranos: what a thread keeps while others make calls between its own.
use registry_k8s_io.Geranos.Main.{World}
use registry_k8s_io.Geranos.Main.Laws.{Consistent, Keeps}
use registry_k8s_io.Geranos.Store.{
  Head, found, failed, not_found, api_error, other_error, Service, IsLawful,
}
use registry_k8s_io.Geranos.Threads.{Thread, finished, head_call, put_call, ◌>>=◌, exists_of}
use registry_k8s_io.Geranos.Uploader.{Registry, S3Uploader}
use registry_k8s_io.Geranos.Walk.{Client}
use registry_k8s_io.Prelude.{◌≡◌, refl, ◌∙◌, arith, Bool, true, List, Text, Result, ok, err}

pub exists_of-found : (answer : Head) → exists_of answer ≡ ok true → answer ≡ found
unfolding exists_of
exists_of-found found e = refl
exists_of-found (failed not_found) e = absurd cc
exists_of-found (failed (api_error code message)) e = ground arith
exists_of-found (failed (other_error message)) e = absurd cc

module _ (w : World) (c : Client) (g : Registry) (S : Service)
    (stored : S.State → Text → Text → Bool) (L : IsLawful S stored) (layers_of : Text → List Text)
    (u : S3Uploader) where
  abbrev pub Ok : S.State → Type 0
  Ok s = Consistent w c g S stored L layers_of u s

  abbrev pub Kept : S.State → S.State → Type 0
  Kept s t = Keeps w c g S stored L layers_of u s t

  -- From a state on, whatever other threads store before each call, the thread's uploads leave the
  -- layers of each record stored, and what it promises of its value holds when it ends.
  unfoldable pub IsSafe :
      {A : Type 0} → (A → S.State → Type 0) → Thread (Result A) → S.State → Type 0
  IsSafe Q (finished (ok a)) s = (t : S.State) → Kept s t → Ok t → Q a t
  IsSafe Q (finished (err message)) s = Unit
  IsSafe Q (head_call bucket key next) s =
      (t : S.State)
      → Kept s t
      → Ok t
      → IsSafe Q (next (S.head_object t bucket key).0) (S.head_object t bucket key).1
  IsSafe Q (put_call i next) s =
      (t : S.State)
      → Kept s t
      → Ok t
      → Ok (S.upload t i).1 × IsSafe Q (next (S.upload t i).0) (S.upload t i).1

  pub IsSafe-later :
      {A : Type 0} (Q : A → S.State → Type 0) (m : Thread (Result A)) (s t : S.State)
      → Kept s t
      → IsSafe Q m s
      → IsSafe Q m t
  unfolding IsSafe
  IsSafe-later Q (finished (ok a)) s t k h = λ v l o. h v (λ b j x. l b j (k b j x)) o
  IsSafe-later Q (finished (err message)) s t k h = tt
  IsSafe-later Q (head_call bucket key next) s t k h = λ v l o. h v (λ b j x. l b j (k b j x)) o
  IsSafe-later Q (put_call i next) s t k h = λ v l o. h v (λ b j x. l b j (k b j x)) o

  IsSafe-now :
      {A : Type 0} (Q : A → S.State → Type 0) (m : Thread (Result A)) (s : S.State)
      → ((t : S.State) → Kept s t → Ok t → IsSafe Q m t)
      → IsSafe Q m s
  unfolding IsSafe
  IsSafe-now Q (finished (ok a)) s h = λ t k o. h t k o t (λ b j x. x) o
  IsSafe-now Q (finished (err message)) s h = tt
  IsSafe-now Q (head_call bucket key next) s h = λ t k o. h t k o t (λ b j x. x) o
  IsSafe-now Q (put_call i next) s h = λ t k o. h t k o t (λ b j x. x) o

  pub IsSafe-then :
      {A B : Type 0} (Q : A → S.State → Type 0) (R : B → S.State → Type 0) (m : Thread (Result A))
      (f : A → Thread (Result B)) (s : S.State)
      → IsSafe Q m s
      → ((a : A) (t : S.State) → Kept s t → Q a t → IsSafe R (f a) t)
      → IsSafe R (m >>= f) s
  unfolding IsSafe ◌>>=◌
  IsSafe-then Q R (finished (ok a)) f s h k = IsSafe-now R (f a) s (λ t l o. k a t l (h t l o))
  IsSafe-then Q R (finished (err message)) f s h k = tt
  IsSafe-then Q R (head_call bucket key next) f s h k = λ t l o.
      IsSafe-then Q R (next (S.head_object t bucket key).0) f (S.head_object t bucket key).1
        (h t l o) (λ a v l' q. k a v (λ b j x. l' b j (L.head_keeps t bucket key b j ∙ l b j x)) q)
  IsSafe-then Q R (put_call i next) f s h k = λ t l o.
      let (o', h') = h t l o in
      (
        o',
        IsSafe-then Q R (next (S.upload t i).0) f (S.upload t i).1 h'
            (λ a v l' q. k a v (λ b j x. l' b j (L.upload_keeps t i b j (l b j x))) q),
      )

  pub IsSafe-imp :
      {A : Type 0} (Q R : A → S.State → Type 0) (m : Thread (Result A)) (s : S.State)
      → IsSafe Q m s
      → ((a : A) (t : S.State) → Kept s t → Q a t → R a t)
      → IsSafe R m s
  unfolding IsSafe
  IsSafe-imp Q R (finished (ok a)) s h k = λ t l o. k a t l (h t l o)
  IsSafe-imp Q R (finished (err message)) s h k = tt
  IsSafe-imp Q R (head_call bucket key next) s h k = λ t l o.
      IsSafe-imp Q R (next (S.head_object t bucket key).0) (S.head_object t bucket key).1 (h t l o)
        (λ a v l' q. k a v (λ b j x. l' b j (L.head_keeps t bucket key b j ∙ l b j x)) q)
  IsSafe-imp Q R (put_call i next) s h k = λ t l o.
      let (o', h') = h t l o in
      (
        o',
        IsSafe-imp Q R (next (S.upload t i).0) (S.upload t i).1 h'
            (λ a v l' q. k a v (λ b j x. l' b j (L.upload_keeps t i b j (l b j x))) q),
      )

  pub IsSafe-lifted :
      {A : Type 0} (r : Result A) (s : S.State) → IsSafe (λ a t. r ≡ ok a) (finished r) s
  unfolding IsSafe
  IsSafe-lifted (ok a) s = λ t k o. refl
  IsSafe-lifted (err message) s = tt
