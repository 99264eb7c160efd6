-- ===== src/Geranos/Store.antt =====
-- cmd/geranos/s3uploader.go: what it uses of an S3 client, over an unknown state of the service
-- and the network.
pub use registry_k8s_io.Prelude.Actions.{Action, ◌>>=◌, ◌>>◌, lift}
use registry_k8s_io.Prelude.{◌≡◌, ◌⊎◌, Bool, true, Option, Text, Result, ok}

-- An error of a HEAD request: the type for a missing key, another API error with its code, or any
-- other error. The last two have their message.
pub data HeadError : Type 0 where
  not_found : HeadError
  api_error : Text → Text → HeadError
  other_error : Text → HeadError

pub data Head : Type 0 where
  found : Head
  failed : HeadError → Head

-- `s3.PutObjectInput`, with the bytes that its body reads.
pub record PutObjectInput : Type 0 where
  pub bucket : Text
  pub key : Text
  pub body : Text
  pub checksum_sha256 : Option Text

pub record Service : Type 1 where
  pub State : Type 0
  pub head_object : State → Text → Text → Head × State
  pub upload : State → PutObjectInput → Result (Unit {0}) × State

-- What the code relies on: a key that is reported as found is stored; an upload that returns no
-- error has stored its key, and one that returns an error has or has not; nothing else is stored,
-- and nothing is removed.
pub record IsLawful (S : Service) (stored : S.State → Text → Text → Bool) : Type 0 where
  pub head_keeps :
      (s : S.State) (b k c j : Text) → stored (S.head_object s b k).1 c j ≡ stored s c j
  pub head_found :
      (s : S.State) (b k : Text) → (S.head_object s b k).0 ≡ found → stored s b k ≡ true
  pub upload_keeps :
      (s : S.State) (i : PutObjectInput) (c j : Text)
      → stored s c j ≡ true
      → stored (S.upload s i).1 c j ≡ true
  pub upload_only :
      (s : S.State) (i : PutObjectInput) (c j : Text)
      → stored (S.upload s i).1 c j ≡ true
      → (stored s c j ≡ true) ⊎ ((c ≡ i.bucket) × (j ≡ i.key))
  pub upload_ok :
      (s : S.State) (i : PutObjectInput)
      → (S.upload s i).0 ≡ ok tt
      → stored (S.upload s i).1 i.bucket i.key ≡ true
