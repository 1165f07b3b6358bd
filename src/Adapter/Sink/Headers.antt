-- ===== src/Adapter/Sink/Headers.antt =====
-- The headers of the binary request.
use knative_source.Base.{◌≡◌, refl, ◌∙◌, false, some, [], ◌∷◌, ◌++◌, arith}
use knative_source.Base.{Str, str_eq, str_beq, ◌==◌, if◌then◌else◌}
use knative_source.Base.Bytes.{bytes}
use knative_source.Base.Dict.{Dict, lookup, lookup-insert}
use knative_source.Base.Http.{UrlLib, Header, Request}
use knative_source.Base.Http.Header.{header_set, canonical_key}
use knative_source.Adapter.Event.{CloudEvents}
use knative_source.Adapter.Sink.{build_binary_request, binary_headers, set_extension_headers}

-- No header of an extension has the name Content-Type.
canonical_key-ne-content_type :
    (s : Str) → (canonical_key (bytes "Ce-" ++ s) == bytes "Content-Type") ≡ false
unfolding canonical_key str_beq
canonical_key-ne-content_type s = ground arith

set_extension_headers-content_type :
    (exts : Dict Str Str) (h : Header)
    → lookup (bytes "Content-Type") (set_extension_headers exts h) ≡ lookup (bytes "Content-Type") h
unfolding set_extension_headers header_set
set_extension_headers-content_type [] h = refl
set_extension_headers-content_type ((k, v) ∷ exts) h =
    set_extension_headers-content_type exts _ ∙ rw (lookup-insert, canonical_key-ne-content_type)

binary_headers-content_type :
    (ce : CloudEvents) (ev : ce.Event)
    → lookup (bytes "Content-Type") (binary_headers ce ev)
      ≡ some (
          if ce.data_content_type ev == []
          then bytes "application/json"
          else ce.data_content_type ev)
unfolding binary_headers header_set canonical_key str_beq
binary_headers-content_type ce ev =
    set_extension_headers-content_type (ce.extensions ev) _ ∙ rw lookup-insert

-- The Content-Type of a request is that of the event, or application/json if the event has none,
-- whatever its extensions are named.
pub build_binary_request-content_type :
    (net : UrlLib) (ce : CloudEvents) (sink_url : Str) (ev : ce.Event) {req : Request}
    → build_binary_request net ce sink_url ev ≡ some req
    → lookup (bytes "Content-Type") req.header
      ≡ some (
          if ce.data_content_type ev == []
          then bytes "application/json"
          else ce.data_content_type ev)
unfolding build_binary_request
build_binary_request-content_type net ce sink_url ev h =
    ground (arith, binary_headers-content_type ce ev)
