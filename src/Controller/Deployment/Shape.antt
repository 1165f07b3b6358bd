-- ===== src/Controller/Deployment/Shape.antt =====
-- What the rendered Deployment depends on.
use knative_source.Base.{◌≡◌, refl, Option, some, Str}
use knative_source.Base.Dict.{Dict}
use knative_source.Api.Types.{YipYapSourceFilter, YipYapSource}
use knative_source.Controller.Deployment.{make_adapter_deployment, filter_env, adapter_env}

-- A source with another filter.
abbrev pub with_filter : {C : Type 0} → YipYapSource C → YipYapSourceFilter → YipYapSource C
with_filter src fl = record src { spec = record src.spec { filter = some fl } }

module _ (marshal_overrides : Dict Str Str → Option Str) (child_name : Str → Str → Str) where
  filter_env_types :
      (fl fl' : YipYapSourceFilter)
      → fl.types ≡ fl'.types
      → filter_env marshal_overrides child_name (some fl)
        ≡ filter_env marshal_overrides child_name (some fl')
  unfolding filter_env
  filter_env_types fl fl' h = rw h refl

  -- Of a filter, the rendered Deployment depends on the types alone: the identifiers of monitors and
  -- the severities that a source asks for are not in it.
  pub make_adapter_deployment-types :
      {C : Type 0} (src : YipYapSource C) (sink : Option Str) (image : Str)
      (fl fl' : YipYapSourceFilter)
      → fl.types ≡ fl'.types
      → make_adapter_deployment marshal_overrides child_name (with_filter src fl) sink image
        ≡ make_adapter_deployment marshal_overrides child_name (with_filter src fl') sink image
  unfolding make_adapter_deployment adapter_env
  make_adapter_deployment-types src sink image fl fl' h = rw (filter_env_types fl fl' h) refl
