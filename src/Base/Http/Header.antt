-- ===== src/Base/Http/Header.antt =====
-- `http.Header.Set` and the canonical form of header names (net/textproto).
use knative_source.Base.{ℕ, Bool, true, ◌&&◌, ◌||◌, [], ◌∷◌, leb, if◌then◌else◌}
use knative_source.Base.{Str, str_eq, nat_eq, ◌==◌, contains}
use knative_source.Base.Bytes.{bytes, lower_byte, upper_byte}
use knative_source.Base.Dict.{Dict, insert}

-- RFC 7230 token bytes.
unfoldable pub is_token_byte : ℕ → Bool
is_token_byte c =
    leb b'0' c && leb c b'9'
    || leb b'A' c && leb c b'Z'
    || leb b'a' c && leb c b'z'
    || contains (bytes "!#$%&'*+-.^_`|~") c

unfoldable pub is_token : Str → Bool
is_token [] = true
is_token (c ∷ s) = is_token_byte c && is_token s

-- Upper case at the start and behind a dash, lower case elsewhere.
unfoldable pub title : Bool → Str → Str
title upper [] = []
title upper (c ∷ s) = (if upper then upper_byte c else lower_byte c) ∷ title (c == b'-') s

unfoldable pub canonical_key : Str → Str
unfolding is_token is_token_byte title
canonical_key k = if is_token k then title true k else k

unfoldable pub header_set : Str → Str → Dict Str Str → Dict Str Str
unfolding canonical_key insert
header_set k v h = insert (canonical_key k) v h
