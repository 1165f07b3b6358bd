-- ===== src/Tests/Admission.antt =====
-- What the webhooks are given: errors, globs and a default for the sink.
use knative_source.Base.{
  refl, ◌&&◌, true, false, Bool, ℕ, Option, none, some, [], ◌∷◌, Str, str_eq, ◌==◌, if◌then◌else◌,
}
use knative_source.Base.Bytes.{bytes}
use knative_source.Knative.{DefaultsSink}
use knative_source.Knative.FieldError.{FieldErrors, IsFieldErrors}
use knative_source.Api.Types.{YipYapSource}
use knative_source.Api.Defaults.{spec_set_defaults}
use knative_source.Tests.Conditions.{Conditions}
use knative_source.Tests.Source.{spec, source}

-- Errors without texts.
abbrev pub errors : FieldErrors
errors = record {
  FieldError = Bool;
  nil = true;
  also = λ a b. a && b;
  via_field = λ p e. e;
  missing_field = λ p. false;
  invalid_value = λ v p. false;
  field_error = λ m p. false;
  is_nil = λ e. e;
}

pub errors-IsFieldErrors : IsFieldErrors errors
errors-IsFieldErrors = record {
  is_nil-nil = refl;
  is_nil-also = λ a b. refl;
  is_nil-via_field = λ p e. refl;
  is_nil-missing_field = λ p. refl;
  is_nil-invalid_value = λ v p. refl;
  is_nil-field_error = λ m p. refl;
}

abbrev pub match_error : Str → Option Str
match_error pat = if pat == bytes "[" then some (bytes "syntax error in pattern") else none

abbrev pub itoa : ℕ → Str
itoa n = n ∷ []

-- The namespace is set.
abbrev pub sink_defaults : DefaultsSink
sink_defaults namespace d = elim d.ref [
  | none ↦ d
  | some r ↦ record d { ref = some (record r { namespace = namespace }) }
]

-- A source with overrides, and what defaulting makes of it.
abbrev pub source_labelled : YipYapSource Conditions
source_labelled = record source {
  spec = record spec { ce_overrides = some ((bytes "team", bytes "ops") ∷ []) };
}

abbrev pub source_defaulted : YipYapSource Conditions
source_defaulted = record source_labelled {
  spec = spec_set_defaults sink_defaults source.meta.namespace source_labelled.spec;
}
