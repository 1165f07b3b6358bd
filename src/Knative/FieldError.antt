-- ===== src/Knative/FieldError.antt =====
-- `apis.FieldError`: a nil error or a tree of complaints, each with a message and a path.
use knative_source.Base.{◌≡◌, Bool, true, false, ◌&&◌, Str}

pub record FieldErrors : Type 1 where
  pub FieldError : Type 0
  pub nil : FieldError
  pub also : FieldError → FieldError → FieldError
  pub via_field : Str → FieldError → FieldError
  pub missing_field : Str → FieldError
  pub invalid_value : Str → Str → FieldError
  pub field_error : Str → Str → FieldError
  -- Whether an error is nil, so that the object is admitted.
  pub is_nil : FieldError → Bool

-- Joining keeps every complaint, and a path prefix neither makes nor drops one.
pub record IsFieldErrors (f : FieldErrors) : Type 0 where
  pub is_nil-nil : f.is_nil f.nil ≡ true
  pub is_nil-also : (a b : f.FieldError) → f.is_nil (f.also a b) ≡ (f.is_nil a && f.is_nil b)
  pub is_nil-via_field : (p : Str) (e : f.FieldError) → f.is_nil (f.via_field p e) ≡ f.is_nil e
  pub is_nil-missing_field : (p : Str) → f.is_nil (f.missing_field p) ≡ false
  pub is_nil-invalid_value : (v p : Str) → f.is_nil (f.invalid_value v p) ≡ false
  pub is_nil-field_error : (m p : Str) → f.is_nil (f.field_error m p) ≡ false
