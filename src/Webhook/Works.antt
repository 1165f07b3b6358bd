-- ===== src/Webhook/Works.antt =====
-- From a request of admission to the adapter's process.
use knative_source.Base.{ℕ, Option, some, Str, str_eq}
use knative_source.Base.Dict.{Dict}
use knative_source.Base.Duration.{Duration}
use knative_source.Knative.{Destination, DefaultsSink}
use knative_source.Knative.FieldError.{FieldErrors, IsFieldErrors}
use knative_source.Knative.Webhook.{
  Answer, refused, allowed, WebhookTypes, WebhookLib, IsWebhookLib,
}
use knative_source.Api.Types.{YipYapSource}
use knative_source.Api.Registration.{get_group_version_kind, kind_eq}
use knative_source.Adapter.Config.{Config}
use knative_source.Adapter
use knative_source.Webhook.{main}

module _ {C : Type 0} (f : FieldErrors) (lawful : IsFieldErrors f) (match_error : Str → Option Str)
    (itoa : ℕ → Str) (sink_validate : Destination → f.FieldError) (sink_defaults : DefaultsSink)
    (k : WebhookTypes) (lib : WebhookLib k (YipYapSource C) f.FieldError)
    (lib_lawful : IsWebhookLib k (YipYapSource C) f.FieldError lib f.is_nil) where
  abbrev answer : Str → Str → Answer (YipYapSource C)
  answer path raw =
      lib.serve (main f match_error itoa sink_validate sink_defaults k lib) path
        get_group_version_kind raw

  abbrev patched : YipYapSource C → Answer (YipYapSource C) → Option (YipYapSource C)
  patched y refused = some y
  patched y (allowed y') = some y'
