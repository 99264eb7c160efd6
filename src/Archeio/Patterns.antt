-- ===== src/Archeio/Patterns.antt =====
-- cmd/archeio/internal/app/handlers.go: the two regular expressions. A text is read byte by byte:
-- the classes that the expressions name are of ASCII bytes, and a longer character is matched by
-- `.` and `[^/]` with all of its bytes.
pub mod Laws
pub mod Cosign
use registry_k8s_io.GoText.Regex.{Atom, one, many, literal, find_submatch, match_string}
use registry_k8s_io.Prelude.{
  ℕ, zero, suc, Bool, ◌&&◌, ◌||◌, not, eqb, leb, List, [], ◌∷◌, ◌++◌, Option, Text, codes,
}

-- `.`
abbrev pub any_byte : ℕ → Bool
any_byte c = not (eqb c 10)

-- `[^/]`
abbrev pub not_slash : ℕ → Bool
not_slash c = not (eqb c b'/')

abbrev pub between : ℕ → ℕ → ℕ → Bool
between lo hi c = leb lo c && leb c hi

-- `[a-zA-Z0-9=_-]`
abbrev pub encoded : ℕ → Bool
encoded c =
    between b'a' b'z' c
    || between b'A' b'Z' c
    || between b'0' b'9' c
    || eqb c b'='
    || eqb c b'_'
    || eqb c b'-'

-- `[a-f0-9]`
abbrev pub hex_digit : ℕ → Bool
hex_digit c = between b'a' b'f' c || between b'0' b'9' c

-- `+` and `{n}`
abbrev pub some_of : (ℕ → Bool) → List Atom
some_of p = one p ∷ many p ∷ []

abbrev pub repeated : ℕ → (ℕ → Bool) → List Atom
repeated zero p = []
repeated (suc n) p = one p ∷ repeated n p

-- `^/v2/.*/blobs/([^/]+:[a-zA-Z0-9=_-]+)$`, split at the group.
unfoldable pub re_blob_front : List Atom
re_blob_front = literal (codes "/v2/") ++ (many any_byte ∷ literal (codes "/blobs/"))

unfoldable pub re_blob_digest : List Atom
re_blob_digest = some_of not_slash ++ (literal (codes ":") ++ some_of encoded)

-- `^/v2/.*/manifests/sha256-[a-f0-9]{64}\.(sig|att)$`, with one ending of the two.
unfoldable pub re_cosign_tag : Text → List Atom
re_cosign_tag ending =
    literal (codes "/v2/")
    ++ (many any_byte
        ∷ (literal (codes "/manifests/sha256-")
            ++ (repeated 64 hex_digit ++ literal (codes "." ++ ending))))

-- `reBlob.FindStringSubmatch(path)[1]`, where there is a match.
unfoldable pub blob_digest : Text → Option Text
unfolding re_blob_front re_blob_digest find_submatch
blob_digest path = find_submatch re_blob_front re_blob_digest path

-- `reCosignTag.MatchString`
unfoldable pub is_cosign_tag : Text → Bool
unfolding re_cosign_tag match_string
is_cosign_tag path =
    match_string (re_cosign_tag (codes "sig")) path
    || match_string (re_cosign_tag (codes "att")) path
