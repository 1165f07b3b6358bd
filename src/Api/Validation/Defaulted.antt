-- ===== src/Api/Validation/Defaulted.antt =====
-- Validation behind defaulting.
use knative_source.Base.{
  ℕ, ◌≡◌, refl, ◌∙◌, sym, ap, Bool-cases, inl, inr, Option, none, some, [], Str, str_eq, str_beq,
  ◌==◌,
}
use knative_source.Knative.{Destination, DefaultsSink}
use knative_source.Knative.FieldError.{FieldErrors, IsFieldErrors}
use knative_source.Api.Types.{YipYapSource, YipYapSourceSpec}
use knative_source.Api.Defaults.{spec_set_defaults, set_defaults}
use knative_source.Api.Validation.{validate}
use knative_source.Api.Validation.Laws.{is_valid, is_nil-validate}

module _ (f : FieldErrors) (lawful : IsFieldErrors f) (match_error : Str → Option Str)
    (itoa : ℕ → Str) (sink_validate : Destination → f.FieldError)
    (sink_defaults : DefaultsSink) where
  is_valid-spec_set_defaults :
      (namespace : Str) (s : YipYapSourceSpec)
      → f.is_nil (sink_validate (sink_defaults namespace s.sink)) ≡ f.is_nil (sink_validate s.sink)
      → is_valid f lawful match_error itoa sink_validate
          (spec_set_defaults sink_defaults namespace s)
        ≡ is_valid f lawful match_error itoa sink_validate s
  unfolding is_valid spec_set_defaults str_beq
  is_valid-spec_set_defaults namespace s same = elim (Bool-cases (s.api_key_ref.key == [])) [
    | inl key ↦ elim (Bool-cases (s.mode == [])) [
      | inl mode ↦ rw (key, mode, same) refl
      | inr mode ↦ rw (key, mode, same) (rw mode refl)
    ]
    | inr key ↦ elim (Bool-cases (s.mode == [])) [
      | inl mode ↦ rw (key, mode, same) refl
      | inr mode ↦ rw (key, mode, same) (rw mode refl)
    ]
  ]

  -- Defaulting neither makes a source admissible nor takes that away, where it does not for the sink:
  -- the source that `SetDefaults` leaves is admitted exactly when the one before would be.
  pub validate-set_defaults :
      {C : Type 0} (src src' : YipYapSource C)
      → set_defaults sink_defaults (some src) ≡ some src'
      → f.is_nil (sink_validate (sink_defaults src.meta.namespace src.spec.sink))
        ≡ f.is_nil (sink_validate src.spec.sink)
      → f.is_nil (validate f match_error itoa sink_validate src')
        ≡ f.is_nil (validate f match_error itoa sink_validate src)
  unfolding set_defaults spec_set_defaults
  validate-set_defaults src src' defaulted same =
      let spec = sym (ap (λ o. elim o [ none ↦ src.spec | some y ↦ y.spec ]) defaulted) in
      is_nil-validate f lawful match_error itoa sink_validate src'
      ∙ ap (is_valid f lawful match_error itoa sink_validate) spec
      ∙ is_valid-spec_set_defaults src.meta.namespace src.spec same
      ∙ sym (is_nil-validate f lawful match_error itoa sink_validate src)
