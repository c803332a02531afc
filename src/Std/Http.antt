-- ===== src/Std/Http.antt =====
-- Package net/http as far as the program uses it: header maps, requests, what a handler does to its
-- `ResponseWriter`, and the status texts.
mod Header
mod Body
mod Status
unfoldable pub use Header.*
unfoldable pub use Body.*
unfoldable pub use Status.*
use grpc_composition.Common.{ℕ, List, [], ◌∷◌, ◌++◌, Text, lookup, codes, Option, none, some}
use grpc_composition.Std.Http.Header.{HeaderMap}
use grpc_composition.Std.Http.Body.{Reader}

-- `*http.Request`: what a router stored for `PathValue`, the query of the URL, the headers, the
-- unread body and the context.
pub record Request (Context Foreign : Type 0) : Type 0 where
  pub context : Context
  pub path_value : Text → Text
  pub query : List (Text × List Text)
  pub header : HeaderMap
  pub body : Reader Foreign

abbrev first_value : Option (List Text) → Text
first_value none = []
first_value (some []) = []
first_value (some (v ∷ _)) = v

-- `r.URL.Query().Get(name)`: the first value, or "".
unfoldable pub query_get : {Context Foreign : Type 0} → Request Context Foreign → Text → Text
query_get r name = first_value (lookup name r.query)

-- The calls that a handler makes on the `ResponseWriter`, oldest first.
pub data Call : Type 0 where
  set_header : Text → Text → Call
  write_header : ℕ → Call
  write : Text → Call

abbrev pub Writer : Type 0
Writer = List Call
