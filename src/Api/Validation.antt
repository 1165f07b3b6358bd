-- ===== src/Api/Validation.antt =====
-- pkg/apis/sources/v1alpha1/yipyapsource_validation.go
pub mod Laws
pub mod Defaulted
use knative_source.Base.{
  ℕ, suc, Bool, true, false, not, ◌||◌, Option, none, some, List, [], ◌∷◌, ◌++◌, contains,
  if◌then◌else◌, Str, str_eq, ◌==◌,
}
use knative_source.Base.Bytes.{bytes}
use knative_source.Knative.{Destination}
use knative_source.Knative.FieldError.{FieldErrors}
use knative_source.Api.Types.{
  YipYapSourceFilter, YipYapSourceSpec, YipYapSource, mode_auto, mode_poll, mode_stream,
}

abbrev pub valid_severities : List Str
valid_severities = bytes "info" ∷ bytes "warning" ∷ bytes "critical" ∷ []

-- The error of `path.Match(pat, "")` (`none` is nil), the decimal form of an index, and the
-- validation of the sink.
module _ (f : FieldErrors) (match_error : Str → Option Str) (itoa : ℕ → Str)
    (sink_validate : Destination → f.FieldError) where
  open f use {FieldError}

  index_path : Str → ℕ → Str
  index_path field i = field ++ (bytes "[" ++ (itoa i ++ bytes "]"))

  -- The two loops, from an index on and with the errors so far.
  check_types : ℕ → List Str → FieldError → FieldError
  unfolding index_path
  check_types i [] errs = errs
  check_types i (pat ∷ pats) errs = check_types (suc i) pats (elim (match_error pat) [
    | none ↦ errs
    | some e ↦
        f.also errs (f.field_error (bytes "invalid glob: " ++ e) (index_path (bytes "types") i))
  ])

  check_severities : ℕ → List Str → FieldError → FieldError
  unfolding index_path
  check_severities i [] errs = errs
  check_severities i (sev ∷ sevs) errs = check_severities (suc i) sevs (
      if not (contains valid_severities sev)
      then f.also errs (f.invalid_value sev (index_path (bytes "severities") i))
      else errs)

  unfoldable pub filter_validate : YipYapSourceFilter → FieldError
  unfolding check_types check_severities
  filter_validate fl = check_severities 0 fl.severities (check_types 0 fl.types f.nil)

  check_key : YipYapSourceSpec → FieldError → FieldError
  check_key s errs =
      if s.api_key_ref.name == []
      then f.also errs (f.missing_field (bytes "apiKeyRef.name"))
      else errs

  check_mode : YipYapSourceSpec → FieldError → FieldError
  check_mode s errs =
      if s.mode == [] || s.mode == mode_auto || s.mode == mode_poll || s.mode == mode_stream
      then errs
      else f.also errs (f.invalid_value s.mode (bytes "mode"))

  check_filter : YipYapSourceSpec → FieldError → FieldError
  check_filter s errs = elim s.filter [
    | none ↦ errs
    | some fl ↦ f.also errs (f.via_field (bytes "filter") (filter_validate fl))
  ]

  unfoldable pub spec_validate : YipYapSourceSpec → FieldError
  unfolding check_key check_mode check_filter
  spec_validate s =
      f.also (check_filter s (check_mode s (check_key s f.nil)))
        (f.via_field (bytes "sink") (sink_validate s.sink))

  unfoldable pub validate : {C : Type 0} → YipYapSource C → FieldError
  unfolding spec_validate
  validate y = f.via_field (bytes "spec") (spec_validate y.spec)
