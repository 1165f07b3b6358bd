-- ===== src/Webhook/Admission.antt =====
-- What the webhook's process answers to requests of admission.
use knative_source.Base.{
  ℕ, true, Option, none, some, List, [], ◌∷◌, Str, str_eq, ◌==◌, if◌then◌else◌,
}
use knative_source.Knative.{Destination, DefaultsSink}
use knative_source.Knative.FieldError.{FieldErrors, IsFieldErrors}
use knative_source.Knative.Webhook.{
  Answer, refused, allowed, WebhookTypes, ControllerConstructor, WebhookLib, IsWebhookLib,
}
use knative_source.Api.Types.{YipYapSource}
use knative_source.Api.Registration.{GroupVersionKind, kind_eq, get_group_version_kind}
use knative_source.Api.Defaults.{spec_set_defaults}
use knative_source.Api.Validation.Laws.{is_valid}
use knative_source.Webhook.{
  webhook_options, new_defaulting_admission_controller, new_validation_admission_controller,
  new_config_validation_controller,
}

module _ {C : Type 0} (f : FieldErrors) (lawful : IsFieldErrors f) (match_error : Str → Option Str)
    (itoa : ℕ → Str) (sink_validate : Destination → f.FieldError) (sink_defaults : DefaultsSink)
    (k : WebhookTypes) (lib : WebhookLib k (YipYapSource C) f.FieldError)
    (lib_lawful : IsWebhookLib k (YipYapSource C) f.FieldError lib f.is_nil) where
  -- The source that a request is about, of the kind that is registered and with no unknown field.
  abbrev pub requested : GroupVersionKind → Str → Option (YipYapSource C)
  requested g raw = if get_group_version_kind == g then lib.decode true raw else none

  abbrev pub defaulting_answer : Option (YipYapSource C) → Answer (YipYapSource C)
  defaulting_answer none = refused
  defaulting_answer (some y) =
      allowed (record y { spec = spec_set_defaults sink_defaults y.meta.namespace y.spec })

  abbrev pub validation_answer : Option (YipYapSource C) → Answer (YipYapSource C)
  validation_answer none = refused
  validation_answer (some y) =
      if is_valid f lawful match_error itoa sink_validate y.spec then allowed y else refused

  abbrev context : k.Context
  context = lib.with_options lib.new_context webhook_options

  abbrev constructors : List (ControllerConstructor k (YipYapSource C) f.FieldError)
  constructors =
      lib.new_certificates
      ∷ new_defaulting_admission_controller f match_error itoa sink_validate sink_defaults k lib
      ∷ new_validation_admission_controller f match_error itoa sink_validate sink_defaults k lib
      ∷ new_config_validation_controller f match_error itoa sink_validate sink_defaults k lib
      ∷ []
