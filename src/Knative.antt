-- ===== src/Knative.antt =====
-- What the program uses of knative.dev/pkg, client-go and the Kubernetes API types: plain data, and
-- interfaces whose operations are parameters, with what their documentation promises.
pub mod FieldError
pub mod Webhook
pub mod ListWatch
pub mod Condition
use knative_source.Base.{Option, Str}

-- `duckv1.KReference` and `duckv1.Destination`. A URL stands for its text.
pub record KReference : Type 0 where
  pub kind : Str
  pub namespace : Str
  pub name : Str
  pub api_version : Str

pub record Destination : Type 0 where
  pub ref : Option KReference
  pub uri : Option Str
  pub ca_certs : Option Str
  pub audience : Option Str

-- `Destination.SetDefaults`, for a parent in the namespace, and `Destination.Validate`.
abbrev pub DefaultsSink : Type 0
DefaultsSink = Str → Destination → Destination
