-- ===== src/Geranos/Uploader/Laws.antt =====
-- cmd/geranos/s3uploader.go: what a call stores.
use mathlib.Core.Bool.{false≢true}
use registry_k8s_io.Geranos.Store.{PutObjectInput, Service, IsLawful, Action, ◌>>◌}
use registry_k8s_io.Geranos.Uploader.{
  Hash, ImageBlob, Registry, S3Uploader, key_for_layer, checksum, blob_exists, put_blob, copy_to_s3,
  copy_layer_to_s3, copy_layers, on_head_error,
}
use registry_k8s_io.Prelude.{
  ◌≡◌, ◌⊎◌, inl, inr, refl, sym, ap, ◌∙◌, subst, arith, Bool, true, false, Bool-cases, List, [],
  ◌∷◌, ◌++◌, All, All-imp, All-append, Text, Result, Result-cases, ok, err,
}

module _ (g : Registry) (S : Service) (u : S3Uploader) (stored : S.State → Text → Text → Bool)
    (L : IsLawful S stored) (bucket : Text) where
  -- Nothing is lost, and what is new is a key of the bucket with the property.
  abbrev pub Adds : (Text → Type 0) → S.State → S.State → Type 0
  Adds P s t =
      ((c j : Text) → stored s c j ≡ true → stored t c j ≡ true)
      × ((c j : Text) → stored t c j ≡ true → (stored s c j ≡ true) ⊎ ((c ≡ bucket) × P j))

  Adds-refl : (P : Text → Type 0) (s : S.State) → Adds P s s
  Adds-refl P s = ((λ c j h. h), (λ c j h. inl h))

  Adds-trans : (P : Text → Type 0) (s t w : S.State) → Adds P s t → Adds P t w → Adds P s w
  Adds-trans P s t w (k, n) (k', n') = (
    (λ c j h. k' c j (k c j h)),
    (λ c j h. elim (n' c j h) [ inl old ↦ n c j old | inr new ↦ inr new ]),
  )

  pub Adds-imp :
      (P Q : Text → Type 0) (s t : S.State) → ((j : Text) → P j → Q j) → Adds P s t → Adds Q s t
  Adds-imp P Q s t f (k, n) =
      (k, λ c j h. elim (n c j h) [ inl old ↦ inl old | inr (e, new) ↦ inr (e, f j new) ])

  pub blob_exists-keeps :
      (key c j : Text) (s : S.State) → stored (blob_exists g S u bucket key s).1 c j ≡ stored s c j
  unfolding blob_exists
  blob_exists-keeps key c j s = ground (arith, L.head_keeps s bucket key c j)

  pub blob_exists-found :
      (key : Text) (s : S.State)
      → (blob_exists g S u bucket key s).0 ≡ ok true
      → stored s bucket key ≡ true
  unfolding blob_exists on_head_error
  blob_exists-found key s h = ground (arith, L.head_found s bucket key)

  -- A blob is put by one upload of its key, or not at all.
  Put : Text → S.State → Result (Unit {0}) × S.State → Type 0
  Put key s r =
      ((r.1 ≡ s) × (r.0 ≡ ok tt → u.dry_run ≡ true))
      ⊎ ((i : PutObjectInput) × (r ≡ S.upload s i)
          × (i.bucket ≡ bucket)
          × (i.key ≡ key)
          × (u.dry_run ≡ false))

  put_blob-Put :
      (key : Text) (layer : ImageBlob) (digest : Hash) (s : S.State)
      → Put key s (put_blob g S u bucket key layer digest s)
  unfolding put_blob Put
  put_blob-Put key layer digest s = elim (Result-cases layer.compressed) [
    | inr (m, e) ↦ rw e (inl (refl, λ q. cc))
    | inl (r, e) ↦ rw e (elim (Result-cases (checksum g digest)) [
      | inr (m, e') ↦ rw e' (inl (refl, λ q. cc))
      | inl (sum, e') ↦ rw e' (elim (Bool-cases u.dry_run) [
        | inl dry ↦ rw dry (inl (refl, λ q. refl))
        | inr real ↦ rw real (
            inr (
              record { bucket = bucket; key = key; body = r; checksum_sha256 = sum },
              refl,
              refl,
              refl,
              refl,
            ))
      ])
    ])
  ]

  -- What a call does: it adds only keys with the property; if it is no dry run and returns no error,
  -- the state has what was asked for; and a dry run changes nothing that is stored.
  abbrev pub Does :
      (Text → Type 0) → (S.State → Type 0) → S.State → Result (Unit {0}) × S.State → Type 0
  Does P Q s r =
      Adds P s r.1
      × (u.dry_run ≡ false → r.0 ≡ ok tt → Q r.1)
      × (u.dry_run ≡ true → (c j : Text) → stored r.1 c j ≡ stored s c j)

  abbrev HasKey : Text → S.State → Type 0
  HasKey key s = stored s bucket key ≡ true

  Put-Does :
      (key : Text) (s : S.State) (r : Result (Unit {0}) × S.State)
      → Put key s r
      → Does (λ j. j ≡ key) (HasKey key) s r
  unfolding Put
  Put-Does key s r (inl (same, dry)) = (
    rw same (Adds-refl (λ j. j ≡ key) s),
    λ real done. absurd (false≢true (sym real ∙ dry done)),
    λ _ c j. ap (λ t. stored t c j) same,
  )
  Put-Does key s r (inr (i, e, b, k, real)) = rw e (
    (
      (λ c j h. L.upload_keeps s i c j h),
      (λ c j h. elim (L.upload_only s i c j h) [
        | inl old ↦ inl old
        | inr (eb, ek) ↦ inr (eb ∙ b, ek ∙ k)
      ]),
    ),
    (λ _ done.
        subst (λ c. stored (S.upload s i).1 c key ≡ true) b
          (subst (λ j. stored (S.upload s i).1 i.bucket j ≡ true) k (L.upload_ok s i done))),
    (λ dry c j. absurd (false≢true (sym real ∙ dry))),
  )

  -- A call that follows another.
  pub Does-then :
      (P P' R : Text → Type 0) (Q Q' : S.State → Type 0) (m k : Action S.State (Unit {0}))
      (s : S.State)
      → ((j : Text) → P j → R j)
      → ((j : Text) → P' j → R j)
      → ((t w : S.State) → Adds P' t w → Q t → Q w)
      → Does P Q s (m s)
      → ((t : S.State) → Does P' Q' t (k t))
      → Does R (λ t. Q t × Q' t) s ((m >> k) s)
  Does-then P P' R Q Q' m k s f f' kept did h = go (m s) did
    where
      go :
          (r : Result (Unit {0}) × S.State)
          → Does P Q s r
          → Does R (λ t. Q t × Q' t) s (elim r.0 [ ok a ↦ k r.1 | err e ↦ (err e, r.1) ])
      go (err e, t) (added, asked, dry) = (Adds-imp P R s t f added, (λ _ q. cc), dry)
      go (ok a, t) (added, asked, dry) =
          let (added', asked', dry') = h t in
          (
            Adds-trans R s t (k t).1 (Adds-imp P R s t f added) (Adds-imp P' R t (k t).1 f' added'),
            (λ real done. (kept t (k t).1 added' (asked real refl), asked' real done)),
            (λ d c j. dry' d c j ∙ dry d c j),
          )

  pub Does-err :
      (P : Text → Type 0) (Q : S.State → Type 0) (s : S.State) (e : Text) → Does P Q s (err e, s)
  Does-err P Q s e = (Adds-refl P s, (λ _ q. cc), λ _ c j. refl)

  -- A call after a state in which the same is stored.
  Does-after :
      (P : Text → Type 0) (Q : S.State → Type 0) (s t : S.State) (r : Result (Unit {0}) × S.State)
      → ((c j : Text) → stored t c j ≡ stored s c j)
      → Does P Q t r
      → Does P Q s r
  Does-after P Q s t r same ((k, n), asked, dry) = (
    (
      (λ c j h. k c j (same c j ∙ h)),
      (λ c j h. elim (n c j h) [ inl old ↦ inl (sym (same c j) ∙ old) | inr new ↦ inr new ]),
    ),
    asked,
    λ d c j. dry d c j ∙ same c j,
  )

  -- What follows the check for the key.
  checked :
      (key : Text) (layer : ImageBlob) (digest : Hash) (s : S.State) (r : Result Bool × S.State)
      → ((c j : Text) → stored r.1 c j ≡ stored s c j)
      → (r.0 ≡ ok true → stored s bucket key ≡ true)
      → Does
          (λ j. j ≡ key)
          (HasKey key)
          s
          (elim r.0 [ ok true ↦ (ok tt, r.1) | _ ↦ put_blob g S u bucket key layer digest r.1 ])
  checked key layer digest s (ok true, t) same have =
      Does-after (λ j. j ≡ key) (HasKey key) s t (ok tt, t) same
        (Adds-refl (λ j. j ≡ key) t, (λ _ _. same bucket key ∙ have refl), λ _ c j. refl)
  checked key layer digest s (ok false, t) same have =
      Does-after (λ j. j ≡ key) (HasKey key) s t _ same
        (Put-Does key t _ (put_blob-Put key layer digest t))
  checked key layer digest s (err e, t) same have =
      Does-after (λ j. j ≡ key) (HasKey key) s t _ same
        (Put-Does key t _ (put_blob-Put key layer digest t))

  pub copy_to_s3-Does :
      (key : Text) (layer : ImageBlob) (s : S.State)
      → Does (λ j. j ≡ key) (HasKey key) s (copy_to_s3 g S u bucket key layer s)
  unfolding copy_to_s3
  copy_to_s3-Does key layer s = elim (Result-cases layer.digest) [
    | inr (e, q) ↦ rw q (Does-err (λ j. j ≡ key) (HasKey key) s e)
    | inl (digest, q) ↦ rw q (elim (Bool-cases u.reupload_layers) [
      | inl again ↦ rw again (Put-Does key s _ (put_blob-Put key layer digest s))
      | inr once ↦ rw once (
          checked key layer digest s (blob_exists g S u bucket key s)
            (λ c j. blob_exists-keeps key c j s) (blob_exists-found key s))
    ])
  ]

  -- The digest of a layer that gives one, and those of several.
  unfoldable pub digest_of : ImageBlob → List Text
  digest_of layer = elim layer.digest [ ok h ↦ g.hash_string h ∷ [] | err e ↦ [] ]

  unfoldable pub digests : List ImageBlob → List Text
  digests [] = []
  digests (layer ∷ layers) = digest_of layer ++ digests layers

  abbrev pub IsLayerKey : Text → Type 0
  IsLayerKey j = (d : Text) × (j ≡ key_for_layer d)

  abbrev pub HasLayers : List Text → S.State → Type 0
  HasLayers ds t = All (λ d. stored t bucket (key_for_layer d) ≡ true) ds

  copy_layer_to_s3-Does :
      (layer : ImageBlob) (s : S.State)
      → Does IsLayerKey (HasLayers (digest_of layer)) s (copy_layer_to_s3 g S u bucket layer s)
  unfolding copy_layer_to_s3 digest_of
  copy_layer_to_s3-Does layer s = elim (Result-cases layer.digest) [
    | inr (e, q) ↦ rw q (Does-err IsLayerKey (HasLayers []) s e)
    | inl (h, q) ↦
        let key : Text = key_for_layer (g.hash_string h) in
        let (added, asked, dry) = copy_to_s3-Does key layer s in
        rw q (
          Adds-imp (λ j. j ≡ key) IsLayerKey s _ (λ j e. (g.hash_string h, e)) added,
          (λ real done. (asked real done, tt)),
          dry,
        )
  ]

  HasLayers-kept :
      (P : Text → Type 0) (ds : List Text) (t w : S.State)
      → Adds P t w
      → HasLayers ds t
      → HasLayers ds w
  HasLayers-kept P ds t w (k, n) h = All-imp ds (λ d have. k bucket (key_for_layer d) have) h

  pub copy_layers-Does :
      (layers : List ImageBlob) (s : S.State)
      → Does IsLayerKey (HasLayers (digests layers)) s (copy_layers g S u bucket layers s)
  unfolding copy_layers digests
  copy_layers-Does [] s = (Adds-refl IsLayerKey s, (λ _ _. tt), λ _ c j. refl)
  copy_layers-Does (layer ∷ layers) s =
      let (added, asked, dry) =
        Does-then IsLayerKey IsLayerKey IsLayerKey (HasLayers (digest_of layer))
          (HasLayers (digests layers)) (copy_layer_to_s3 g S u bucket layer)
          (copy_layers g S u bucket layers) s (λ j e. e) (λ j e. e)
          (HasLayers-kept IsLayerKey (digest_of layer)) (copy_layer_to_s3-Does layer s)
          (copy_layers-Does layers) in
      (
        added,
        (λ real done.
            let (first, rest) = asked real done in
            All-append (λ d. stored _ bucket (key_for_layer d) ≡ true) (digest_of layer)
              (digests layers) first rest),
        dry,
      )
