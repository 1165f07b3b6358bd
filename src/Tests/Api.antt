-- ===== src/Tests/Api.antt =====
-- Runs of the theorems on the API types.
use knative_source.Base.{◌≡◌, refl, true}
use knative_source.Api.Defaults.{set_defaults}
use knative_source.Api.Validation.{validate}
use knative_source.Api.Validation.Defaulted.{validate-set_defaults}
use knative_source.Tests.Admission.{
  errors, errors-IsFieldErrors, match_error, itoa, sink_defaults, source_labelled, source_defaulted,
}

validate-set_defaults_example :
    errors.is_nil (validate errors match_error itoa (λ d. true) source_defaulted)
    ≡ errors.is_nil (validate errors match_error itoa (λ d. true) source_labelled)
unfolding set_defaults
validate-set_defaults_example =
    validate-set_defaults errors errors-IsFieldErrors match_error itoa (λ d. true) sink_defaults
      source_labelled source_defaulted refl refl
