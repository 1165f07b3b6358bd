-- ===== src/Tests/WebhookLib.antt =====
-- A library of webhooks that keeps its laws.
use mathlib.Core.Path.{subst}
use knative_source.Base.{
  ◌≡◌, refl, sym, inl, inr, Bool, true, false, not, ◌&&◌, Bool-cases, Option-cases, is_some, Option,
  none, some, List, [], ◌∷◌, ◌++◌, Str, str_eq, str_beq_iff, eq_refl, ◌==◌, contains, if◌then◌else◌,
  arith,
}
use knative_source.Base.Bytes.{bytes}
use knative_source.Base.Dict.{lookup}
use knative_source.Knative.Webhook.{
  GenericCrd, Answer, refused, allowed, WebhookTypes, WebhookLib, IsWebhookLib, are_distinct, paths,
}
use knative_source.Api.Registration.{GroupVersionKind, kind_eq}
use knative_source.Api.Types.{YipYapSource}
use knative_source.Tests.Admission.{source_labelled, source_defaulted}
use knative_source.Tests.Conditions.{Conditions}

abbrev pub Response : Type 0
Response = Answer (YipYapSource Conditions)

abbrev pub Handler : Type 0
Handler = GroupVersionKind → Str → Response

-- A controller is a path with an answer; there is one context and one watcher.
abbrev pub k : WebhookTypes
k = record {
  Context = Unit;
  Watcher = Unit;
  Controller = Option Str × Handler;
  Callback = Unit;
  Constructor = Unit;
  Server = Str → Handler;
}

abbrev pub Crd : Type 0
Crd = GenericCrd Unit (YipYapSource Conditions) Bool

abbrev pub decode : Bool → Str → Option (YipYapSource Conditions)
decode strict raw =
    if raw == bytes "{}"
    then some source_labelled
    else if raw == bytes "{ }"
    then some source_defaulted
    else none

abbrev pub patched : Option (YipYapSource Conditions) → Response
patched none = refused
patched (some y) = allowed y

unfoldable pub defaulted : Option Crd → Option (YipYapSource Conditions) → Response
defaulted none y = refused
defaulted (some crd) none = refused
defaulted (some crd) (some y) = patched (crd.set_defaults tt (some y))

unfoldable pub validated : Option Crd → Option (YipYapSource Conditions) → Response
validated none y = refused
validated (some crd) none = refused
validated (some crd) (some y) = if crd.validate tt y then allowed y else refused

abbrev pub is_at : Str → Option Str → Bool
is_at path none = false
is_at path (some p) = p == path

abbrev pub Start : Type 0
Start = Unit → Unit → Option Str × Handler

-- The first controller at the path answers.
unfoldable pub route : List Start → Str → Handler
route [] path g raw = refused
route (c ∷ cs) path g raw =
    if is_at path (c tt tt).0 then (c tt tt).1 g raw else route cs path g raw

abbrev pub lib : WebhookLib k (YipYapSource Conditions) Bool
lib = record {
  new_context = tt;
  with_options = λ ctx o. ctx;
  new_certificates = λ ctx w. (none, λ g raw. refused);
  new_defaulting = λ ctx name path types with_context strict.
      (some path, λ g raw. defaulted (lookup g types) (decode strict raw));
  new_validation = λ ctx name path types with_context strict callbacks.
      (some path, λ g raw. validated (lookup g types) (decode strict raw));
  new_configmaps = λ ctx name path constructors. (some path, λ g raw. refused);
  logging_config_map_name = bytes "config-logging";
  new_config_from_config_map = tt;
  observability_config_map_name = bytes "config-observability";
  parse = tt;
  webhook_main = λ ctx name cs. route cs;
  start = λ c ctx. c ctx tt;
  path = λ c. c.0;
  admit = λ c. c.1;
  decode = decode;
  serve = λ s. s;
}

abbrev paths_of : List Start → List Str
paths_of = paths k (YipYapSource Conditions) Bool lib tt

contains-paths_of :
    (before after : List Start) (c : Start) (path : Str)
    → (c tt tt).0 ≡ some path
    → contains (paths_of (before ++ c ∷ after)) path ≡ true
unfolding paths
contains-paths_of [] after c path here = rw here (rw (eq_refl path) refl)
contains-paths_of (d ∷ before) after c path here =
    let rest = contains-paths_of before after c path here in
    elim (Option-cases (d tt tt).0) [
      | inl unset ↦ rw unset rest
      | inr (p, set) ↦ rw set (ground (arith, rest))
    ]

and_right : (a b : Bool) → (a && b) ≡ true → b ≡ true
and_right a b h = ground arith

not_contained :
    (ps : List Str) (p path : Str)
    → (p == path) ≡ true
    → contains ps path ≡ true
    → (not (contains ps p) && are_distinct ps) ≡ true
    → ⊥
not_contained ps p path same found apart =
    let found' = subst (λ q. contains ps q ≡ true) (sym ((str_beq_iff p path).0 same)) found in
    absurd (ground (arith, found'))

route-at :
    (before after : List Start) (c : Start) (path : Str) (g : GroupVersionKind) (raw : Str)
    → are_distinct (paths_of (before ++ c ∷ after)) ≡ true
    → (c tt tt).0 ≡ some path
    → route (before ++ c ∷ after) path g raw ≡ (c tt tt).1 g raw
unfolding paths route are_distinct
route-at [] after c path g raw distinct here = rw here (rw (eq_refl path) refl)
route-at (d ∷ before) after c path g raw distinct here = elim (Option-cases (d tt tt).0) [
  | inl unset ↦ rw unset (route-at before after c path g raw (rw unset at distinct) here)
  | inr (p, set) ↦
      let apart = rw set at distinct in
      let found = contains-paths_of before after c path here in
      elim (Bool-cases (p == path)) [
        | inl same ↦ absurd (not_contained _ p path same found apart)
        | inr other ↦
            rw (set, other) (route-at before after c path g raw (and_right _ _ apart) here)
      ]
]

defaulted_refused :
    (c : Option Crd) (y : Option (YipYapSource Conditions))
    → (is_some c && is_some y) ≡ false
    → defaulted c y ≡ refused
unfolding defaulted
defaulted_refused none y bad = refl
defaulted_refused (some c) none bad = refl
defaulted_refused (some c) (some y) bad = absurd (cc)

validated_refused :
    (c : Option Crd) (y : Option (YipYapSource Conditions))
    → (is_some c && is_some y) ≡ false
    → validated c y ≡ refused
unfolding validated
validated_refused none y bad = refl
validated_refused (some c) none bad = refl
validated_refused (some c) (some y) bad = absurd (cc)

pub lib-IsWebhookLib : IsWebhookLib k (YipYapSource Conditions) Bool lib (λ e. e)
unfolding defaulted validated
lib-IsWebhookLib = record {
  started = λ c ctx. (ctx, tt, refl);
  path-new_certificates = λ ctx w. refl;
  path-new_defaulting = λ ctx name path types with_context strict. refl;
  path-new_validation = λ ctx name path types with_context strict callbacks. refl;
  path-new_configmaps = λ ctx name path constructors. refl;
  serve-webhook_main = λ ctx o name path before after c g raw distinct here.
      route-at before after c path g raw distinct here;
  admit-new_defaulting =
      λ ctx name path types with_context strict g raw crd y y' known decoded same.
        rw (known, decoded, same tt) refl;
  admit-new_defaulting-refused = λ ctx name path types with_context strict g raw bad.
      defaulted_refused (lookup g types) (decode strict raw) bad;
  admit-new_validation =
      λ ctx name path types with_context strict callbacks g raw crd y b known uncalled decoded same.
        rw (known, decoded, same tt) refl;
  admit-new_validation-refused = λ ctx name path types with_context strict callbacks g raw bad.
      validated_refused (lookup g types) (decode strict raw) bad;
}
