-- ===== src/Base/Http.antt =====
-- Requests and replies, and the parts of Go's net/url and net/http that the program calls.
pub mod Header
use knative_source.Base.{ℕ, Bool, Option, none, some, List, [], ◌∷◌, ◌++◌, Str, if◌then◌else◌}
use knative_source.Base.{str_eq, ◌==◌}
use knative_source.Base.Bytes.{bytes}
use knative_source.Base.Dict.{Dict, insert, lookup}

-- `url.URL`: what stands before the path, the path, and the query.
pub record Url : Type 0 where
  pub location : Str
  pub path : Str
  pub raw_query : Str

-- `url.Values`
abbrev pub Values : Type 0
Values = Dict Str (List Str)

-- `url.Parse` (`none` is an error), `path.Join`, `URL.Query`, `Values.Encode`, `URL.String`, and
-- whether `http.NewRequestWithContext` accepts a URL.
pub record UrlLib : Type 0 where
  pub parse_url : Str → Option Url
  pub path_join : Str → Str → Str
  pub query : Url → Values
  pub encode : Values → Str
  pub url_string : Url → Str
  pub is_requestable : Str → Bool

unfoldable pub values_of : Str → Values → List Str
values_of k q = elim (lookup k q) [ none ↦ [] | some vs ↦ vs ]

-- `Values.Add` and `Values.Set`
unfoldable pub query_add : Str → Str → Values → Values
query_add k v q = insert k (values_of k q ++ (v ∷ [])) q

unfoldable pub query_set : Str → Str → Values → Values
query_set k v q = insert k (v ∷ []) q

-- The loop of `q.Add("filter", f)`.
unfoldable pub add_filters : List Str → Values → Values
add_filters [] q = q
add_filters (f ∷ fs) q = add_filters fs (query_add (bytes "filter") f q)

abbrev pub Header : Type 0
Header = Dict Str Str

pub record Request : Type 0 where
  pub method : Str
  pub url : Str
  pub header : Header
  pub body : Str

-- What `Client.Do` gives: an error of the transport, or a response whose body was read.
pub data Reply : Type 0 where
  transport_error : Reply
  response : ℕ → Str → Reply
