-- ===== src/Adapter/Sink/Overrides.antt =====
-- The CloudEvent overrides in the headers of the request.
use mathlib.Core.Path.{subst}
use knative_source.Base.{
  Bool, ◌≡◌, refl, ◌∙◌, ap, true, false, Option, none, some, Bool-cases, inl, inr, [], ◌∷◌, arith,
  All,
}
use knative_source.Base.{Str, str_eq, str_beq_iff, ◌==◌, if◌then◌else◌}
use knative_source.Base.Dict.{Dict, lookup, lookup-insert}
use knative_source.Base.Http.{UrlLib, Header, Request}
use knative_source.Base.Http.Header.{header_set}
use knative_source.Adapter.Event.{CloudEvents}
use knative_source.Adapter.Sink.{
  set_extension_headers, binary_headers, apply_overrides, build_binary_request,
}
use knative_source.Adapter.Sink.Names.{is_name, header_of, header_of-injective}

-- A map has a key once.
abbrev pub IsUnique : Dict Str Str → Type 0
IsUnique [] = Unit
IsUnique ((k, v) ∷ m) = (lookup k m ≡ none) × IsUnique m

-- A list of names.
abbrev pub AreNames : Dict Str Str → Type 0
AreNames = All (λ e. is_name e.0 ≡ true)

-- What is relied on of the extensions of an event: a map whose keys are names, in which
-- `SetExtension` sets a name.
pub record IsExtensible (ce : CloudEvents) : Type 0 where
  pub unique : (ev : ce.Event) → IsUnique (ce.extensions ev)
  pub names : (ev : ce.Event) → AreNames (ce.extensions ev)
  pub lookup-set_extension :
      (k v : Str) (ev : ce.Event) (j : Str)
      → is_name k ≡ true
      → lookup j (ce.extensions (ce.set_extension k v ev))
        ≡ (if k == j then some v else lookup j (ce.extensions ev))

unset_head :
    (b : Bool) (v : Str) (r : Option Str)
    → (if b then some v else r) ≡ none
    → (b ≡ false) × (r ≡ none)
unset_head true v r h = absurd (cc)
unset_head false v r h = (refl, h)

unset_of_hit :
    (k j : Str) (m : Dict Str Str) → (k == j) ≡ true → lookup k m ≡ none → lookup j m ≡ none
unset_of_hit k j m hit = subst (λ x. lookup x m ≡ none) ((str_beq_iff k j).0 hit)

headers_same : (k j : Str) → (k == j) ≡ true → (header_of k == header_of j) ≡ true
headers_same k j hit =
    (str_beq_iff (header_of k) (header_of j)).1 (ap header_of ((str_beq_iff k j).0 hit))

headers_apart :
    (k j : Str)
    → is_name k ≡ true
    → is_name j ≡ true
    → (k == j) ≡ false
    → (header_of k == header_of j) ≡ false
headers_apart k j nk nj miss = elim (Bool-cases (header_of k == header_of j)) [
  | inr apart ↦ apart
  | inl same ↦
      let equal =
        header_of-injective k j nk nj ((str_beq_iff (header_of k) (header_of j)).0 same) in
      let hit = (str_beq_iff k j).1 equal in absurd (cc)
]

module _ (ce : CloudEvents) (lawful : IsExtensible ce) where
  -- An override of another name changes nothing of a name, and the one of a name sets it.
  apply_overrides-other :
      (m : Dict Str Str) (ev : ce.Event) (j : Str)
      → AreNames m
      → lookup j m ≡ none
      → lookup j (ce.extensions (apply_overrides ce m ev)) ≡ lookup j (ce.extensions ev)
  unfolding apply_overrides lookup
  apply_overrides-other [] ev j names unset = refl
  apply_overrides-other ((k, v) ∷ m) ev j names unset =
      let (miss, rest) = unset_head (k == j) v _ unset in
      apply_overrides-other m _ j names.1 rest
      ∙ lawful.lookup-set_extension k v ev j names.0
      ∙ rw miss refl

  apply_overrides-set :
      (m : Dict Str Str) (ev : ce.Event) (j w : Str)
      → AreNames m
      → IsUnique m
      → lookup j m ≡ some w
      → lookup j (ce.extensions (apply_overrides ce m ev)) ≡ some w
  unfolding apply_overrides lookup
  apply_overrides-set [] ev j w names unique set = absurd (cc)
  apply_overrides-set ((k, v) ∷ m) ev j w names unique set = elim (Bool-cases (k == j)) [
    | inl hit ↦
        apply_overrides-other m _ j names.1 (unset_of_hit k j m hit unique.0)
        ∙ lawful.lookup-set_extension k v ev j names.0
        ∙ rw hit (rw hit at set)
    | inr miss ↦ apply_overrides-set m _ j w names.1 unique.1 (rw miss at set)
  ]

-- The header of a name in the loop over extensions.
set_headers-other :
    (exts : Dict Str Str) (h : Header) (j : Str)
    → is_name j ≡ true
    → AreNames exts
    → lookup j exts ≡ none
    → lookup (header_of j) (set_extension_headers exts h) ≡ lookup (header_of j) h
unfolding set_extension_headers header_set header_of lookup
set_headers-other [] h j name names unset = refl
set_headers-other ((k, v) ∷ exts) h j name names unset =
    let (miss, rest) = unset_head (k == j) v _ unset in
    set_headers-other exts _ j name names.1 rest
    ∙ lookup-insert (header_of k) (header_of j) v h
    ∙ rw (headers_apart k j names.0 name miss) refl

set_headers-set :
    (exts : Dict Str Str) (h : Header) (j w : Str)
    → is_name j ≡ true
    → AreNames exts
    → IsUnique exts
    → lookup j exts ≡ some w
    → lookup (header_of j) (set_extension_headers exts h) ≡ some w
unfolding set_extension_headers header_set header_of lookup
set_headers-set [] h j w name names unique set = absurd (cc)
set_headers-set ((k, v) ∷ exts) h j w name names unique set = elim (Bool-cases (k == j)) [
  | inl hit ↦
      set_headers-other exts _ j name names.1 (unset_of_hit k j exts hit unique.0)
      ∙ lookup-insert (header_of k) (header_of j) v h
      ∙ rw (headers_same k j hit) (rw hit at set)
  | inr miss ↦ set_headers-set exts _ j w name names.1 unique.1 (rw miss at set)
]

extension_header :
    (ce : CloudEvents) (ev : ce.Event) (k v : Str)
    → is_name k ≡ true
    → AreNames (ce.extensions ev)
    → IsUnique (ce.extensions ev)
    → lookup k (ce.extensions ev) ≡ some v
    → lookup (header_of k) (binary_headers ce ev) ≡ some v
unfolding binary_headers
extension_header ce ev k v = set_headers-set (ce.extensions ev) _ k v

built_header :
    (net : UrlLib) (ce : CloudEvents) (sink_url : Str) (ev : ce.Event) {req : Request}
    → build_binary_request net ce sink_url ev ≡ some req
    → req.header ≡ binary_headers ce ev
unfolding build_binary_request
built_header net ce sink_url ev built = ground arith

-- A request that carries an event with overrides has, for each override, the header of its name with
-- its value, whatever extensions the event had. The overrides and the extensions of an event are maps
-- whose keys are names: of lower-case letters and digits, and not the name of an attribute. They are
-- iterated in any order, and `SetExtension` sets a name.
pub override_sent :
    (net : UrlLib) (ce : CloudEvents) (sink_url : Str) (overrides : Dict Str Str) (ev : ce.Event)
    (k v : Str) {req : Request}
    → IsExtensible ce
    → AreNames overrides
    → IsUnique overrides
    → is_name k ≡ true
    → lookup k overrides ≡ some v
    → build_binary_request net ce sink_url (apply_overrides ce overrides ev) ≡ some req
    → lookup (header_of k) req.header ≡ some v
override_sent net ce sink_url overrides ev k v lawful names unique name set built =
    let sent = apply_overrides ce overrides ev in
    ap (lookup (header_of k)) (built_header net ce sink_url sent built)
    ∙ extension_header ce sent k v name (lawful.names sent) (lawful.unique sent)
        (apply_overrides-set ce lawful overrides ev k v names unique set)
