-- ===== src/Archeio/Google.antt =====
-- cmd/archeio/internal/app/handlers.go over pkg/net/cloudcidrs/zz_generated_range_data.go: clients
-- in the ranges that the shipped table gives to Google's cloud.
use mathlib.Core.List.{Memᴰ}
use mathlib.Core.Bool.{false≢true}
use registry_k8s_io.Archeio.Cache.{BlobCache, Remote}
use registry_k8s_io.Archeio.Config.{RegistryConfig}
use registry_k8s_io.Archeio.Handlers.{redirect, handle}
use registry_k8s_io.Archeio.Handlers.Blobs.{IsRead}
use registry_k8s_io.Archeio.Patterns.Laws.{IsBlobPath}
use registry_k8s_io.Archeio.Server.{server, server-gcp}
use registry_k8s_io.Archeio.Urls.{upstream_redirect_url}
use registry_k8s_io.Cidrs.Mapping.{Mapping, pairs, entries, AllValid}
use registry_k8s_io.Clientip
use registry_k8s_io.Clientip.{Net, Request}
use registry_k8s_io.Cloudcidrs.{IpInfo, gcp}
use registry_k8s_io.Cloudcidrs.Google.{gcp_table, gcp_table_ok}
use registry_k8s_io.Cloudcidrs.Literals.{is_gcp_entry, is_valid, is_valid-IsValid}
use registry_k8s_io.Netip.{Addr, Prefix, IsAddr, IsValid, contains}
use registry_k8s_io.Prelude.{
  ◌≡◌, refl, ap, sym, ◌∙◌, subst, arith, Bool, true, false, Bool-cases, inl, inr, all, any, All,
  All-append, All-imp, All-mem, List, [], ◌∷◌, ◌++◌, append_assoc, ok, Text, text_beq_iff,
}

any-mem :
    {A : Type 0} (p : A → Bool) (l : List A) → any p l ≡ true → (x : A) × Memᴰ x l × (p x ≡ true)
any-mem p [] h = cc
any-mem p (x ∷ l) h = elim (Bool-cases (p x)) [
  | inl yes_ ↦ (x, Memᴰ.head refl, yes_)
  | inr other ↦ let (y, m, q) = any-mem p l (ground arith) in (y, Memᴰ.tail m, q)
]

mem-append : {A : Type 0} (x : A) (l k : List A) → Memᴰ x l → Memᴰ x (l ++ k)
mem-append x [] k m = elim m [ ]
mem-append x (y ∷ l) k (Memᴰ.head e) = Memᴰ.head e
mem-append x (y ∷ l) k (Memᴰ.tail m) = Memᴰ.tail (mem-append x l k m)

entries-append : (a b : Mapping IpInfo) → entries (a ++ b) ≡ entries a ++ entries b
unfolding entries
entries-append [] b = refl
entries-append ((info, cidrs) ∷ a) b =
    ap (λ l. pairs info cidrs ++ l) (entries-append a b)
    ∙ sym (append_assoc (pairs info cidrs) (entries a) (entries b))

-- An entry of Google's cloud with a valid prefix.
abbrev IsGoogle : Prefix × IpInfo → Type 0
IsGoogle x = IsValid x.0 × (x.1.cloud ≡ gcp)

pairs-IsGoogle :
    (info : IpInfo) (cidrs : List Prefix)
    → info.cloud ≡ gcp
    → all is_valid cidrs ≡ true
    → All IsGoogle (pairs info cidrs)
unfolding pairs
pairs-IsGoogle info [] e h = tt
pairs-IsGoogle info (p ∷ cidrs) e h =
    ((is_valid-IsValid p (ground arith), e), pairs-IsGoogle info cidrs e (ground arith))

entries-IsGoogle : (m : Mapping IpInfo) → all is_gcp_entry m ≡ true → All IsGoogle (entries m)
unfolding entries is_gcp_entry
entries-IsGoogle [] h = tt
entries-IsGoogle ((info, cidrs) ∷ m) h =
    All-append IsGoogle (pairs info cidrs) (entries m)
      (pairs-IsGoogle info cidrs ((text_beq_iff info.cloud gcp).0 (ground arith)) (ground arith))
      (entries-IsGoogle m (ground arith))

google-AllGcp :
    (ip : Addr) (l k : List (Prefix × IpInfo)) (p : Prefix) (info : IpInfo)
    → All IsGoogle l
    → All (λ x. contains x.0 ip ≡ false) k
    → Memᴰ (p, info) (l ++ k)
    → contains p ip ≡ true
    → info.cloud ≡ gcp
google-AllGcp ip [] k p info h outside m inside =
    absurd (false≢true (sym (All-mem (λ x. contains x.0 ip ≡ false) m outside) ∙ inside))
google-AllGcp ip (x ∷ l) k p info h outside (Memᴰ.head e) inside =
    ap (λ (y : Prefix × IpInfo). y.1.cloud) e ∙ h.0.1
google-AllGcp ip (x ∷ l) k p info h outside (Memᴰ.tail m) inside =
    google-AllGcp ip l k p info h.1 outside m inside

-- With the table's shipped part for Google's cloud and any other valid entries, a GET or HEAD
-- request for a blob goes upstream and leaves the cache as it is, if a shipped prefix of Google's
-- cloud contains the client's address, which can be read and is in its family's range, and none of
-- the other entries does.
pub server-google :
    (net : Net) (others : Mapping IpInfo) (head : Remote) (rc : RegistryConfig) (r : Request)
    (d : Text) (blobs : BlobCache) (ip : Addr)
    → IsRead r
    → IsBlobPath r.path d
    → Clientip.get net r ≡ ok ip
    → IsAddr ip
    → AllValid (entries others)
    → any (λ (x : Prefix × IpInfo). contains x.0 ip) (entries gcp_table) ≡ true
    → All (λ x. contains x.0 ip ≡ false) (entries others)
    → handle (server net (gcp_table ++ others) head) rc r blobs
      ≡ (redirect (upstream_redirect_url rc r.path) 307, blobs)
server-google net others head rc r d blobs ip read blob e addr valid inside outside =
    let google : All IsGoogle (entries gcp_table) = entries-IsGoogle gcp_table gcp_table_ok in
    let both = entries-append gcp_table others in
    let ((p, info), m, c) =
      any-mem (λ (x : Prefix × IpInfo). contains x.0 ip) (entries gcp_table) inside in
    server-gcp net (gcp_table ++ others) head rc r d blobs ip p info read blob e addr
      (subst AllValid (sym both) (
        All-append (λ (x : Prefix × IpInfo). IsValid x.0) (entries gcp_table) (entries others)
          (All-imp (entries gcp_table) (λ x h. h.0) google) valid))
      (subst (Memᴰ (p, info)) (sym both)
        (mem-append (p, info) (entries gcp_table) (entries others) m))
      c
      (λ q i k.
        google-AllGcp ip (entries gcp_table) (entries others) q i google outside
          (subst (Memᴰ (q, i)) both k))
