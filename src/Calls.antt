-- ===== src/Calls.antt =====
-- client_unary.go, server_handler.go and core/message.go: the calls that a channel carries. A call
-- is a head of ten bytes, the metadata and a body, in both directions.
pub mod Client
pub mod Handler
pub mod Layout
pub mod Trip
pub mod Tunnel
pub mod Guards
pub mod NilBody
pub mod Passing
pub mod Reply
mod Tests
use httpadapter.Common.{
  ℕ, List, [], ◌∷◌, ◌++◌, Bool, true, false, Option, none, some, ◌||◌, if◌then◌else◌, map,
}
use httpadapter.Common.Bytes.{Bytes, put_uint, bytes_eq}

-- `http.Header`: its entries, in the order in which a `range` over the map meets them.
abbrev pub Header : Type 0
Header = List (Bytes × List Bytes)

-- `ClientMetadata`
pub record ClientMetadata : Type 0 where
  pub url : Bytes
  pub method : Bytes
  pub header : Header

-- `ServerMetadata`
pub record ServerMetadata : Type 0 where
  pub status : ℕ
  pub header : Header

-- What is used of a `url.URL`.
pub record Uri : Type 0 where
  pub scheme : Bytes
  pub host : Bytes
  pub port : Bytes

abbrev pub max_int64 : ℕ
max_int64 = 9223372036854775807

-- `PutUint16(b, uint16(metalen))` and `PutUint64(b[2:], bodylen)`
abbrev pub head : ℕ → ℕ → Bytes
head metalen bodylen = put_uint 2 metalen ++ put_uint 8 bodylen

abbrev pub is_one_of : Bytes → List Bytes → Bool
is_one_of b [] = false
is_one_of b (x ∷ xs) = bytes_eq b x || is_one_of b xs

-- `header[k] = v`
unfoldable pub set_header : Bytes → List Bytes → Header → Header
set_header k v [] = (k, v) ∷ []
set_header k v ((j, w) ∷ h) = if bytes_eq k j then (k, v) ∷ h else (j, w) ∷ set_header k v h

-- `header.Get(k)`, for a `k` that is canonical.
unfoldable pub get_header : Bytes → Header → Bytes
get_header k [] = []
get_header k ((j, []) ∷ h) = if bytes_eq k j then [] else get_header k h
get_header k ((j, v ∷ vs) ∷ h) = if bytes_eq k j then v else get_header k h

-- `header[k]`
unfoldable pub values : Bytes → Header → List Bytes
values k [] = []
values k ((j, v) ∷ h) = if bytes_eq k j then v else values k h

-- `delete(header, k)`
unfoldable pub delete_header : Bytes → Header → Header
delete_header k [] = []
delete_header k ((j, v) ∷ h) = if bytes_eq k j then h else (j, v) ∷ delete_header k h

abbrev pub keys : Header → List Bytes
keys h = map (λ e. e.0) h

-- The loop of `Unmarshal`, where `canonical` is `textproto.CanonicalMIMEHeaderKey`.
unfoldable pub canonical_keys : (Bytes → Bytes) → List Bytes → Header → Header
canonical_keys canonical [] h = h
canonical_keys canonical (k ∷ ks) h = canonical_keys canonical ks (
    if bytes_eq (canonical k) k
    then h
    else delete_header k (set_header (canonical k) (values k h) h))

-- `Unmarshal`, on what `json.Unmarshal` makes of the bytes.
unfoldable pub unmarshal : (Bytes → Bytes) → Option ClientMetadata → Option ClientMetadata
unmarshal canonical none = none
unmarshal canonical (some md) =
    some (record md { header = canonical_keys canonical (keys md.header) md.header })
