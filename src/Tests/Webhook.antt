-- ===== src/Tests/Webhook.antt =====
-- A run of the theorem on the webhook's process.
use knative_source.Base.{str_eq}
use knative_source.Knative.Webhook.{}
use knative_source.Api.Registration.{kind_eq}
