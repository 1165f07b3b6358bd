-- ===== src/Tests/Overrides.antt =====
-- Events whose extensions are maps of names, and a run of the theorem on the overrides.
use mathlib.Core.Path.{subst}
use knative_source.Base.{
  ◌≡◌, refl, ◌∙◌, true, false, Bool, Bool-cases, inl, inr, Option, none, some, [], ◌∷◌, Str, str_eq,
  str_beq, str_beq_iff, ◌==◌, if◌then◌else◌, arith,
}
use knative_source.Base.Bytes.{bytes}
use knative_source.Base.Dict.{Dict, lookup, insert, lookup-insert}
use knative_source.Base.Http.{Request}
use knative_source.Adapter.Event.{CloudEvents}
use knative_source.Adapter.Sink.{apply_overrides, build_binary_request}
use knative_source.Adapter.Sink.Names.{is_name, are_name_bytes, header_of}
use knative_source.Adapter.Sink.Overrides.{IsUnique, AreNames, IsExtensible, override_sent}
use knative_source.Tests.Fixtures.{net}

apart : (o k : Str) → (o == k) ≡ false → (k == o) ≡ false
apart o k miss = ground (arith, str_beq_iff o k, str_beq_iff k o)

insert-IsUnique : (k v : Str) (m : Dict Str Str) → IsUnique m → IsUnique (insert k v m)
unfolding insert lookup
insert-IsUnique k v [] u = (refl, tt)
insert-IsUnique k v ((o, w) ∷ m) u = elim (Bool-cases (o == k)) [
  | inl hit ↦ rw hit (subst (λ x. lookup x m ≡ none) ((str_beq_iff o k).0 hit) u.0, u.1)
  | inr miss ↦ rw miss (lookup-insert k o v m ∙ rw (apart o k miss) u.0, insert-IsUnique k v m u.1)
]

insert-AreNames :
    (k v : Str) (m : Dict Str Str) → is_name k ≡ true → AreNames m → AreNames (insert k v m)
unfolding insert
insert-AreNames k v [] name u = (name, tt)
insert-AreNames k v ((o, w) ∷ m) name u = elim (Bool-cases (o == k)) [
  | inl hit ↦ rw hit (name, u.1)
  | inr miss ↦ rw miss (u.0, insert-AreNames k v m name u.1)
]

record Ev : Type 0 where
  exts : Dict Str Str
  unique : IsUnique exts
  names : AreNames exts

set_if : (b : Bool) (k v : Str) → is_name k ≡ b → Ev → Ev
set_if true k v name ev = record {
  exts = insert k v ev.exts;
  unique = insert-IsUnique k v ev.exts ev.unique;
  names = insert-AreNames k v ev.exts name ev.names;
}
set_if false k v name ev = ev

set_if-lookup :
    (b : Bool) (k v : Str) (name : is_name k ≡ b) (ev : Ev) (j : Str)
    → b ≡ true
    → lookup j (set_if b k v name ev).exts ≡ (if k == j then some v else lookup j ev.exts)
unfolding set_if
set_if-lookup true k v name ev j h = lookup-insert k j v ev.exts
set_if-lookup false k v name ev j h = absurd (cc)

abbrev ce : CloudEvents
ce = record {
  Event = Ev;
  spec_version = λ e. bytes "1.0";
  id = λ e. bytes "e1";
  source = λ e. bytes "yipyap";
  type_name = λ e. bytes "run.yipyap.alert";
  time = λ e. none;
  subject = λ e. [];
  data_content_type = λ e. [];
  payload = λ e. none;
  extensions = λ e. e.exts;
  set_extension = λ k v e. set_if (is_name k) k v refl e;
  unmarshal = λ s. none;
}

ce-IsExtensible : IsExtensible ce
ce-IsExtensible = record {
  unique = λ ev. ev.unique;
  names = λ ev. ev.names;
  lookup-set_extension = λ k v ev j name. set_if-lookup (is_name k) k v refl ev j name;
}

abbrev overrides : Dict Str Str
overrides = (bytes "team", bytes "ops") ∷ (bytes "env", bytes "prod") ∷ []

alone : IsUnique ((bytes "env", bytes "dev") ∷ [])
unfolding lookup
alone = (refl, tt)

apart_overrides : IsUnique overrides
unfolding lookup str_beq
apart_overrides = (refl, (refl, tt))

env-name : is_name (bytes "env") ≡ true
unfolding is_name are_name_bytes str_beq
env-name = refl

names : AreNames overrides
unfolding is_name are_name_bytes str_beq
names = (refl, (refl, tt))

-- It has an extension that an override replaces.
abbrev event : Ev
event = record { exts = (bytes "env", bytes "dev") ∷ []; unique = alone; names = (env-name, tt) }

abbrev sent : Option Request
sent = build_binary_request net ce (bytes "s") (apply_overrides ce overrides event)

abbrev request_of : Option Request → Request
request_of none = record { method = []; url = []; header = []; body = [] }
request_of (some req) = req

built : sent ≡ some (request_of sent)
unfolding build_binary_request str_beq
built = refl

env_set : lookup (bytes "env") overrides ≡ some (bytes "prod")
unfolding lookup str_beq
env_set = refl

override_sent_example :
    lookup (header_of (bytes "env")) (request_of sent).header ≡ some (bytes "prod")
override_sent_example =
    override_sent net ce (bytes "s") overrides event (bytes "env") (bytes "prod") ce-IsExtensible
      names apart_overrides env-name env_set built
