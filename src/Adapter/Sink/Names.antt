-- ===== src/Adapter/Sink/Names.antt =====
-- The header names of extension attributes.
use knative_source.Base.{
  ℕ, ◌≡◌, refl, ◌∙◌, sym, ap, ap₂, Bool, true, false, not, ◌&&◌, ◌||◌, List, [], ◌∷◌, contains,
  ◌++◌, leb, arith,
}
use knative_source.Base.{Str, str_eq, nat_eq, ◌==◌}
use knative_source.Base.Bytes.{bytes, upper_byte}
use knative_source.Base.Http.Header.{is_token_byte, is_token, title, canonical_key}
use knative_source.Adapter.Sink.{upper_first, canonical_header_key}

-- A lower-case letter or a digit: what CloudEvents allows in the name of an attribute.
abbrev pub is_name_byte : ℕ → Bool
is_name_byte c = leb b'a' c && leb c b'z' || leb b'0' c && leb c b'9'

unfoldable pub are_name_bytes : Str → Bool
are_name_bytes [] = true
are_name_bytes (c ∷ s) = is_name_byte c && are_name_bytes s

-- The attributes of the specification, whose names no extension has.
abbrev pub attributes : List Str
attributes =
    bytes "id"
    ∷ bytes "source"
    ∷ bytes "type"
    ∷ bytes "datacontenttype"
    ∷ bytes "subject"
    ∷ bytes "time"
    ∷ bytes "specversion"
    ∷ bytes "dataschema"
    ∷ []

-- The name of an extension.
unfoldable pub is_name : Str → Bool
unfolding are_name_bytes
is_name [] = false
is_name (c ∷ s) = are_name_bytes (c ∷ s) && not (contains attributes (c ∷ s))

-- The header of an extension.
unfoldable pub header_of : Str → Str
header_of k = canonical_key (bytes "Ce-" ++ canonical_header_key k)

token_of :
    (digit upper lower other : Bool)
    → (lower || digit) ≡ true
    → (digit || upper || lower || other) ≡ true
token_of digit upper lower other h = ground arith

both_true : (a b : Bool) → (a && b) ≡ true → (a ≡ true) × (b ≡ true)
both_true a b h = (ground arith, ground arith)

name_token_byte : (c : ℕ) → is_name_byte c ≡ true → is_token_byte c ≡ true
unfolding is_token_byte
name_token_byte c h =
    token_of (leb b'0' c && leb c b'9') (leb b'A' c && leb c b'Z') (leb b'a' c && leb c b'z') _ h

name_token : (s : Str) → are_name_bytes s ≡ true → is_token s ≡ true
unfolding are_name_bytes is_token
name_token [] h = refl
name_token (c ∷ s) h =
    let (first, rest) = both_true _ _ h in rw (name_token_byte c first) (name_token s rest)

title_name : (s : Str) → are_name_bytes s ≡ true → title false s ≡ s
unfolding are_name_bytes title
title_name [] h = refl
title_name (c ∷ s) h = ground (arith, title_name s)

-- The first byte in upper case.
token_of_upper :
    (digit upper lower other : Bool)
    → (upper || digit) ≡ true
    → (digit || upper || lower || other) ≡ true
token_of_upper digit upper lower other h = ground arith

upper_name_byte :
    (c : ℕ)
    → is_name_byte c ≡ true
    → (leb b'A' (upper_byte c) && leb (upper_byte c) b'Z'
        || leb b'0' (upper_byte c) && leb (upper_byte c) b'9')
      ≡ true
upper_name_byte c h = ground arith

upper_token_byte : (c : ℕ) → is_name_byte c ≡ true → is_token_byte (upper_byte c) ≡ true
unfolding is_token_byte
upper_token_byte c h =
    token_of_upper (leb b'0' (upper_byte c) && leb (upper_byte c) b'9')
      (leb b'A' (upper_byte c) && leb (upper_byte c) b'Z')
      (leb b'a' (upper_byte c) && leb (upper_byte c) b'z') _ (upper_name_byte c h)

upper_twice : (c : ℕ) → upper_byte (upper_byte c) ≡ upper_byte c
upper_twice c = ground arith

upper_no_dash : (c : ℕ) → is_name_byte c ≡ true → (upper_byte c == b'-') ≡ false
upper_no_dash c h = ground arith

title_upper :
    (c : ℕ) (s : Str)
    → is_name_byte c ≡ true
    → are_name_bytes s ≡ true
    → title true (upper_byte c ∷ s) ≡ upper_byte c ∷ s
unfolding title
title_upper c s h hs =
    ap₂ (λ u dash. u ∷ title dash s) (upper_twice c) (upper_no_dash c h)
    ∙ ap (λ r. upper_byte c ∷ r) (title_name s hs)

upper_first_name : (c : ℕ) → is_name_byte c ≡ true → upper_first c ≡ upper_byte c ∷ []
unfolding upper_first
upper_first_name c h = ground arith

canonical_prefixed :
    (s : Str) → is_token s ≡ true → canonical_key (bytes "Ce-" ++ s) ≡ bytes "Ce-" ++ title true s
unfolding canonical_key is_token is_token_byte title
canonical_prefixed s h = rw h refl

upper_token :
    (c : ℕ) (s : Str)
    → is_name_byte c ≡ true
    → are_name_bytes s ≡ true
    → is_token (upper_byte c ∷ s) ≡ true
unfolding is_token
upper_token c s h hs = rw (upper_token_byte c h) (name_token s hs)

header_of_name :
    (c : ℕ) (s : Str)
    → is_name_byte c ≡ true
    → are_name_bytes s ≡ true
    → header_of (c ∷ s) ≡ bytes "Ce-" ++ (upper_byte c ∷ s)
unfolding header_of canonical_header_key
header_of_name c s h hs =
    ap (λ u. canonical_key (bytes "Ce-" ++ (u ++ s))) (upper_first_name c h)
    ∙ canonical_prefixed (upper_byte c ∷ s) (upper_token c s h hs)
    ∙ ap (λ r. bytes "Ce-" ++ r) (title_upper c s h hs)

upper_injective :
    (c d : ℕ) → is_name_byte c ≡ true → is_name_byte d ≡ true → upper_byte c ≡ upper_byte d → c ≡ d
upper_injective c d hc hd same = ground arith

abbrev head_of : Str → ℕ
head_of [] = 0
head_of (c ∷ s) = c

abbrev tail_of : Str → Str
tail_of [] = []
tail_of (c ∷ s) = s

-- Two names with one header are the same.
pub header_of-injective :
    (j k : Str) → is_name j ≡ true → is_name k ≡ true → header_of j ≡ header_of k → j ≡ k
unfolding is_name are_name_bytes
header_of-injective [] k hj hk same = absurd (cc)
header_of-injective (c ∷ s) [] hj hk same = absurd (cc)
header_of-injective (c ∷ s) (d ∷ t) hj hk same =
    let (hc, hs) = both_true _ _ (both_true _ _ hj).0 in
    let (hd, ht) = both_true _ _ (both_true _ _ hk).0 in
    let prefixed = sym (header_of_name c s hc hs) ∙ same ∙ header_of_name d t hd ht in
    let rest = ap (λ r. tail_of (tail_of (tail_of r))) prefixed in
    ap₂ (λ x y. x ∷ y) (upper_injective c d hc hd (ap head_of rest)) (ap tail_of rest)
