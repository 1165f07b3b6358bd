-- ===== src/Api/Registration.antt =====
-- pkg/apis/sources/register.go and pkg/apis/sources/v1alpha1/register.go.
use knative_source.Base.{
  ◌≡◌, ap, ◌↔◌, Bool, true, ◌&&◌, List, [], ◌∷◌, Str, str_eq, str_beq_iff, Eq, ◌==◌, arith,
}
use knative_source.Base.Bytes.{bytes}

-- `schema.GroupVersion`, `schema.GroupKind` and `schema.GroupVersionKind`.
pub record GroupVersion : Type 0 where
  pub group : Str
  pub version : Str

pub record GroupKind : Type 0 where
  pub group : Str
  pub kind : Str

pub record GroupVersionKind : Type 0 where
  pub group : Str
  pub version : Str
  pub kind : Str

unfoldable pub kind_beq : GroupVersionKind → GroupVersionKind → Bool
kind_beq a b = a.group == b.group && a.version == b.version && a.kind == b.kind

same_kind :
    (a b : GroupVersionKind) → a.group ≡ b.group → a.version ≡ b.version → a.kind ≡ b.kind → a ≡ b
same_kind a b g v k = λ i. record { group = g i; version = v i; kind = k i }

pub kind_beq_iff : (a b : GroupVersionKind) → (kind_beq a b ≡ true) ↔ (a ≡ b)
unfolding kind_beq
kind_beq_iff a b =
    let group = str_beq_iff a.group b.group in
    let version = str_beq_iff a.version b.version in
    let kind = str_beq_iff a.kind b.kind in
    (
      λ same. same_kind a b (ground arith) (ground arith) (ground arith),
      λ equal. ground (
        arith,
        group.1 (ap (λ (k : GroupVersionKind). k.group) equal),
        version.1 (ap (λ (k : GroupVersionKind). k.version) equal),
        kind.1 (ap (λ (k : GroupVersionKind). k.kind) equal),
      ),
    )

instance abbrev pub kind_eq : Eq GroupVersionKind
kind_eq = record { beq = kind_beq; beq_iff = kind_beq_iff }

-- `GroupVersion.WithKind`
abbrev pub with_kind : GroupVersion → Str → GroupVersionKind
with_kind v k = record { group = v.group; version = v.version; kind = k }

abbrev pub group_name : Str
group_name = bytes "sources.yipyap.run"

abbrev pub scheme_group_version : GroupVersion
scheme_group_version = record { group = group_name; version = bytes "v1alpha1" }

-- `Kind`
unfoldable pub kind_of : Str → GroupKind
kind_of kind =
    let k = with_kind scheme_group_version kind in record { group = k.group; kind = k.kind }

-- `GetGroupVersionKind` of a source.
unfoldable pub get_group_version_kind : GroupVersionKind
get_group_version_kind = with_kind scheme_group_version (bytes "YipYapSource")

-- The types that a scheme is told of, and `AddKnownTypes` with `AddToGroupVersion`.
pub data KnownType : Type 0 where
  source_object list_object : KnownType

pub record SchemeLib (Scheme : Type 0) : Type 0 where
  pub add_known_types : GroupVersion → List KnownType → Scheme → Scheme
  pub add_to_group_version : GroupVersion → Scheme → Scheme

-- `addKnownTypes`, which has no error.
unfoldable pub add_known_types : {Scheme : Type 0} → SchemeLib Scheme → Scheme → Scheme
add_known_types lib scheme =
    lib.add_to_group_version scheme_group_version
      (lib.add_known_types scheme_group_version (source_object ∷ list_object ∷ []) scheme)
