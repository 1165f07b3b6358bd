-- ===== src/Api/Validation/Laws.antt =====
-- Which sources the validating webhook admits.
use knative_source.Base.{
  ℕ, suc, ◌≡◌, refl, ◌∙◌, Bool, true, false, not, ◌&&◌, ◌||◌, Option, none, some, List, [], ◌∷◌,
  ◌++◌, contains, Str, str_eq, ◌==◌, arith, Bool-cases, Option-cases, inl, inr, is_some,
}
use knative_source.Base.Bytes.{bytes}
use knative_source.Knative.{Destination}
use knative_source.Knative.FieldError.{FieldErrors, IsFieldErrors}
use knative_source.Api.Types.{
  YipYapSourceFilter, YipYapSourceSpec, YipYapSource, mode_auto, mode_poll, mode_stream,
}
use knative_source.Api.Validation.{
  valid_severities, check_types, check_severities, check_key, check_mode, check_filter,
  filter_validate, validate, index_path,
}

abbrev pub every : {A : Type 0} → (A → Bool) → List A → Bool
every p [] = true
every p (x ∷ xs) = p x && every p xs

abbrev pub is_mode : Str → Bool
is_mode m = m == [] || m == mode_auto || m == mode_poll || m == mode_stream

and_assoc : (a b c : Bool) → (a && b && c) ≡ ((a && b) && c)
and_assoc true b c = refl
and_assoc false b c = refl

module _ (f : FieldErrors) (lawful : IsFieldErrors f) (match_error : Str → Option Str)
    (itoa : ℕ → Str) (sink_validate : Destination → f.FieldError) where
  abbrev is_glob : Str → Bool
  is_glob pat = not (is_some (match_error pat))

  -- A filter in which every type is a glob and every severity is known.
  abbrev pub is_valid_filter : YipYapSourceFilter → Bool
  is_valid_filter fl = every is_glob fl.types && every (contains valid_severities) fl.severities

  -- The conditions on a spec, one beside the other.
  unfoldable pub is_valid : YipYapSourceSpec → Bool
  is_valid s =
      not (s.api_key_ref.name == [])
      && is_mode s.mode
      && elim s.filter [ none ↦ true | some fl ↦ is_valid_filter fl ]
      && f.is_nil (sink_validate s.sink)

  abbrev with_glob_error : Str → ℕ → f.FieldError → f.FieldError
  with_glob_error e i errs = f.also errs (
      f.field_error (bytes "invalid glob: " ++ e)
        (index_path f match_error itoa sink_validate (bytes "types") i))

  abbrev with_severity_error : Str → ℕ → f.FieldError → f.FieldError
  with_severity_error sev i errs =
      f.also errs
        (f.invalid_value sev (index_path f match_error itoa sink_validate (bytes "severities") i))

  is_nil-check_types :
      (i : ℕ) (pats : List Str) (errs : f.FieldError)
      → f.is_nil (check_types f match_error itoa sink_validate i pats errs)
        ≡ (f.is_nil errs && every is_glob pats)
  unfolding check_types
  is_nil-check_types i [] errs = ground arith
  is_nil-check_types i (pat ∷ pats) errs = elim (Option-cases (match_error pat)) [
    | inl good ↦ rw good (is_nil-check_types (suc i) pats errs)
    | inr (e, bad) ↦ rw bad (
        is_nil-check_types (suc i) pats (with_glob_error e i errs)
        ∙ rw (lawful.is_nil-also, lawful.is_nil-field_error) (ground arith))
  ]

  is_nil-check_severities :
      (i : ℕ) (sevs : List Str) (errs : f.FieldError)
      → f.is_nil (check_severities f match_error itoa sink_validate i sevs errs)
        ≡ (f.is_nil errs && every (contains valid_severities) sevs)
  unfolding check_severities
  is_nil-check_severities i [] errs = ground arith
  is_nil-check_severities i (sev ∷ sevs) errs = elim (Bool-cases (contains valid_severities sev)) [
    | inl known ↦ rw known (is_nil-check_severities (suc i) sevs errs)
    | inr unknown ↦ rw unknown (
        is_nil-check_severities (suc i) sevs (with_severity_error sev i errs)
        ∙ rw (lawful.is_nil-also, lawful.is_nil-invalid_value) (ground arith))
  ]

  is_nil-filter_validate :
      (fl : YipYapSourceFilter)
      → f.is_nil (filter_validate f match_error itoa sink_validate fl) ≡ is_valid_filter fl
  unfolding filter_validate
  is_nil-filter_validate fl =
      is_nil-check_severities 0 fl.severities _
      ∙ rw (is_nil-check_types 0 fl.types f.nil, lawful.is_nil-nil)

  module _ (s : YipYapSourceSpec) (errs : f.FieldError) where
    is_nil-check_key :
        f.is_nil (check_key f match_error itoa sink_validate s errs)
        ≡ (f.is_nil errs && not (s.api_key_ref.name == []))
    unfolding check_key
    is_nil-check_key = ground (
      arith,
      lawful.is_nil-also errs (f.missing_field (bytes "apiKeyRef.name")),
      lawful.is_nil-missing_field (bytes "apiKeyRef.name"),
    )

    is_nil-check_mode :
        f.is_nil (check_mode f match_error itoa sink_validate s errs)
        ≡ (f.is_nil errs && is_mode s.mode)
    unfolding check_mode
    is_nil-check_mode = ground (
      arith,
      lawful.is_nil-also errs (f.invalid_value s.mode (bytes "mode")),
      lawful.is_nil-invalid_value s.mode (bytes "mode"),
    )

    is_nil-check_filter :
        f.is_nil (check_filter f match_error itoa sink_validate s errs)
        ≡ (f.is_nil errs && elim s.filter [ none ↦ true | some fl ↦ is_valid_filter fl ])
    unfolding check_filter
    is_nil-check_filter = elim (Option-cases s.filter) [
      | inl open' ↦ rw open' (ground arith)
      | inr (fl, set) ↦
          rw set (rw (lawful.is_nil-also, lawful.is_nil-via_field, is_nil-filter_validate fl))
    ]

  -- A source is admitted exactly when its Secret is named, its mode is empty or one of the three,
  -- every type of its filter is a glob and every severity is info, warning or critical, and its sink
  -- is valid.
  pub is_nil-validate :
      {C : Type 0} (y : YipYapSource C)
      → f.is_nil (validate f match_error itoa sink_validate y) ≡ is_valid y.spec
  unfolding validate is_valid
  is_nil-validate y =
      rw
        (
          lawful.is_nil-via_field, lawful.is_nil-also, lawful.is_nil-via_field, is_nil-check_filter,
          is_nil-check_mode, is_nil-check_key, lawful.is_nil-nil,
        )
        (ground arith)
