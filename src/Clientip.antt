-- ===== src/Clientip.antt =====
-- pkg/net/clientip/clientip.go: the client's address of a request.
pub mod Laws
use registry_k8s_io.GoText.Fields.{fields_func}
use registry_k8s_io.Netip.{Addr}
use registry_k8s_io.Prelude.{
  ℕ, ◌-◌, Bool, ◌||◌, eqb, ltb, List, [], ◌∷◌, ◌++◌, Text, codes, text_beq, length, get_or, Result,
  ok, err, ◌>>=◌, if◌then◌else◌,
}

-- net.SplitHostPort and netip.ParseAddr, of which nothing is assumed.
pub record Net : Type 0 where
  pub split_host_port : Text → Result (Text × Text)
  pub parse_addr : Text → Result Addr

-- What the program reads of an `http.Request`; a header that is not set reads as the empty text.
pub record Request : Type 0 where
  pub method : Text
  pub path : Text
  pub x_forwarded_for : Text
  pub remote_addr : Text

-- The bytes `,` and ` `.
unfoldable pub is_separator : ℕ → Bool
is_separator r = eqb r b',' || eqb r b' '

unfoldable pub header_fields : Text → List Text
header_fields raw = fields_func is_separator raw

-- The branch with the header: the second field from the end.
unfoldable pub from_header : Net → Text → Result Addr
from_header n raw =
    let keys : List Text = header_fields raw in
    if ltb (length keys) 2
    then err (codes "invalid X-Forwarded-For value: " ++ raw)
    else n.parse_addr (get_or keys (length keys - 2) [])

unfoldable pub get : Net → Request → Result Addr
get n r =
    if text_beq r.x_forwarded_for []
    then (do (host, port) ← n.split_host_port r.remote_addr; n.parse_addr host)
    else from_header n r.x_forwarded_for
