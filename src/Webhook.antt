-- ===== src/Webhook.antt =====
-- cmd/webhook/main.go
pub mod Admission
pub mod Works
use knative_source.Base.{ℕ, true, Option, List, [], ◌∷◌, Str}
use knative_source.Base.Bytes.{bytes}
use knative_source.Base.Dict.{Dict}
use knative_source.Knative.{Destination, DefaultsSink}
use knative_source.Knative.FieldError.{FieldErrors}
use knative_source.Knative.Webhook.{
  GenericCrd, Options, WebhookTypes, Crds, ControllerConstructor, WebhookLib,
}
use knative_source.Api.Types.{YipYapSource}
use knative_source.Api.Registration.{GroupVersionKind, scheme_group_version, with_kind}
use knative_source.Api.Defaults.{set_defaults}
use knative_source.Api.Validation.{validate}

abbrev pub admission_webhook_name : Str
admission_webhook_name = bytes "yipyap-source-webhook"

abbrev defaulting_webhook_name : Str
defaulting_webhook_name = bytes "defaulting.webhook.sources.yipyap.run"

abbrev validation_webhook_name : Str
validation_webhook_name = bytes "validation.webhook.sources.yipyap.run"

abbrev config_validation_webhook_name : Str
config_validation_webhook_name = bytes "config.webhook.sources.yipyap.run"

abbrev pub webhook_options : Options
webhook_options = record {
  service_name = admission_webhook_name;
  port = 8443;
  secret_name = bytes "yipyap-source-webhook-certs";
}

module _ {C : Type 0} (f : FieldErrors) (match_error : Str → Option Str) (itoa : ℕ → Str)
    (sink_validate : Destination → f.FieldError) (sink_defaults : DefaultsSink) (k : WebhookTypes)
    (lib : WebhookLib k (YipYapSource C) f.FieldError) where
  -- `&v1alpha1.YipYapSource{}` as a `GenericCRD`: no method uses the context for more than the
  -- namespace of the parent.
  abbrev pub source_crd : GenericCrd k.Context (YipYapSource C) f.FieldError
  source_crd = record {
    set_defaults = λ ctx y. set_defaults sink_defaults y;
    validate = λ ctx y. validate f match_error itoa sink_validate y;
  }

  unfoldable pub types : Crds k (YipYapSource C) f.FieldError
  types = (with_kind scheme_group_version (bytes "YipYapSource"), source_crd) ∷ []

  abbrev pub callbacks : Dict GroupVersionKind k.Callback
  callbacks = []

  unfoldable pub new_defaulting_admission_controller :
      ControllerConstructor k (YipYapSource C) f.FieldError
  new_defaulting_admission_controller ctx cmw =
      lib.new_defaulting ctx defaulting_webhook_name (bytes "/defaulting") types (λ c. c) true

  unfoldable pub new_validation_admission_controller :
      ControllerConstructor k (YipYapSource C) f.FieldError
  new_validation_admission_controller ctx cmw =
      lib.new_validation ctx validation_webhook_name (bytes "/resource-validation") types (λ c. c)
        true callbacks

  unfoldable pub new_config_validation_controller :
      ControllerConstructor k (YipYapSource C) f.FieldError
  new_config_validation_controller ctx cmw =
      lib.new_configmaps ctx config_validation_webhook_name (bytes "/config-validation") (
        (lib.logging_config_map_name, lib.new_config_from_config_map)
        ∷ (lib.observability_config_map_name, lib.parse)
        ∷ [])

  -- `main`, whose result stands for what runs.
  unfoldable pub main : k.Server
  main =
      lib.webhook_main (lib.with_options lib.new_context webhook_options) admission_webhook_name (
        lib.new_certificates ∷ new_defaulting_admission_controller
        ∷ new_validation_admission_controller ∷ new_config_validation_controller ∷ [])
