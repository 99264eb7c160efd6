-- ===== src/Clientip/Laws.antt =====
-- pkg/net/clientip/clientip.go: which part of the header is the client's.
use registry_k8s_io.Clientip.{Net, Request, is_separator, header_fields, from_header, get}
use registry_k8s_io.GoText.Fields.{IsWord, fields_func-word, fields_func-append}
use registry_k8s_io.Prelude.{
  ℕ, ◌+◌, ◌-◌, ◌<◌, ◌≡◌, ◌≢◌, refl, arith, true, false, ltb, List, [], ◌∷◌, ◌++◌, Text, codes,
  text_beq, text_beq_iff, length, length-append, get_or-append_length, err,
}

-- The header that the load balancer writes: what the client supplied, then its address, then its own.
abbrev pub forwarded : Text → Text → Text → Text
forwarded supplied client balancer = supplied ++ (b',' ∷ (client ++ (b',' ∷ balancer)))

header_fields-forwarded :
    (supplied client balancer : Text)
    → IsWord is_separator client
    → client ≢ []
    → IsWord is_separator balancer
    → balancer ≢ []
    → header_fields (forwarded supplied client balancer)
      ≡ header_fields supplied ++ client ∷ balancer ∷ []
unfolding header_fields is_separator
header_fields-forwarded supplied client balancer hc nc hb nb = rw (
  fields_func-append is_separator supplied (client ++ b',' ∷ balancer) b',' comma,
  fields_func-append is_separator client balancer b',' comma,
  fields_func-word is_separator client hc nc,
  fields_func-word is_separator balancer hb nb,
)
  where
    comma : is_separator b',' ≡ true
    comma = refl

from_header-fields :
    (n : Net) (raw : Text) (before : List Text) (client balancer : Text)
    → header_fields raw ≡ before ++ client ∷ balancer ∷ []
    → from_header n raw ≡ n.parse_addr client
unfolding from_header
from_header-fields n raw before client balancer e =
    rw (e, length-append)
      (rw (
        plenty (length before),
        from_end (length before),
        get_or-append_length before client (balancer ∷ []) [],
      ))
  where
    plenty : (k : ℕ) → ltb (k + 2) 2 ≡ false
    plenty k = ground arith

    from_end : (k : ℕ) → k + 2 - 2 ≡ k
    from_end k = omega arith

not_empty : (supplied rest : Text) (c : ℕ) → text_beq (supplied ++ c ∷ rest) [] ≡ false
unfolding text_beq
not_empty [] rest c = refl
not_empty (x ∷ supplied) rest c = refl

-- The client's address is read from the field that the load balancer writes before its own, whatever
-- the client put into the header before: where the two fields are not empty and have no comma and
-- no space.
pub get-forwarded :
    (n : Net) (r : Request) (supplied client balancer : Text)
    → IsWord is_separator client
    → client ≢ []
    → IsWord is_separator balancer
    → balancer ≢ []
    → r.x_forwarded_for ≡ forwarded supplied client balancer
    → get n r ≡ n.parse_addr client
unfolding get
get-forwarded n r supplied client balancer hc nc hb nb e =
    rw (e, not_empty supplied (client ++ b',' ∷ balancer) b',')
      (from_header-fields n (forwarded supplied client balancer) (header_fields supplied) client
        balancer (header_fields-forwarded supplied client balancer hc nc hb nb))

-- A header that is set and has fewer than two fields is an error.
pub get_of_few :
    (n : Net) (r : Request)
    → r.x_forwarded_for ≢ []
    → length (header_fields r.x_forwarded_for) < 2
    → get n r ≡ err (codes "invalid X-Forwarded-For value: " ++ r.x_forwarded_for)
unfolding get from_header
get_of_few n r set few = ground (arith, text_beq_iff r.x_forwarded_for [])
