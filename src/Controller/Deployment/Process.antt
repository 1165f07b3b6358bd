-- ===== src/Controller/Deployment/Process.antt =====
-- The adapter's process in a container that the controller renders.
use knative_source.Base.{◌≡◌, refl, ◌∙◌, ◌⊎◌, ap, Option, List, [], Str, str_eq, str_beq, All}
use knative_source.Base.Bytes.{bytes}
use knative_source.Base.Dict.{Dict, lookup, insert}
use knative_source.Base.Duration.{Duration}
use knative_source.Base.Http.{UrlLib, response}
use knative_source.Base.Result.{ok}
use knative_source.Knative.{DefaultsSink}
use knative_source.Api.Types.{YipYapSourceSpec, YipYapSource}
use knative_source.Api.Defaults.{spec_set_defaults}
use knative_source.Adapter.Config.{Config, CeOverridesEnvelope, load_config, default_str}
use knative_source.Adapter.Config.Laws.{load_config-health_addr}
use knative_source.Adapter.Event.{CloudEvents}
use knative_source.Adapter.Poll.{Payload}
use knative_source.Adapter.Process.{new_health_server, serve, main}
use knative_source.Adapter.Process.Exits.{Refuses, main-Refuses}
use knative_source.Adapter.Run.{Iteration, World}
use knative_source.Controller.Kube.{EnvVar, Container}
use knative_source.Controller.Deployment.{adapter_env, make_adapter_deployment}
use knative_source.Controller.Deployment.Env.{adapter_getenv, adapter_getenv-health_addr}
use knative_source.Controller.Deployment.RoundTrip.{auto_not_loaded}

module _ (marshal_overrides : Dict Str Str → Option Str) (child_name : Str → Str → Str)
    (secret : Str → Str → Str) (unmarshal : Str → Option CeOverridesEnvelope)
    (parse_duration : Str → Option Duration) where
  -- A source whose mode is unset or "auto", which defaulting makes "auto", has an adapter that never
  -- works: its process ends with status 2 and an error of the configuration under the variables that
  -- the controller renders. No health server is started, and the world is as it was.
  pub auto_refused :
      (net : UrlLib) (ce : CloudEvents) (decode_payload : Str → Option Payload) (w : World)
      (sink_defaults : DefaultsSink) (namespace : Str) (spec : YipYapSourceSpec) (sink : Option Str)
      (its : List Iteration) (s : w.State)
      → (spec.mode ≡ []) ⊎ (spec.mode ≡ bytes "auto")
      → Refuses unmarshal parse_duration net ce decode_payload w s (
          main unmarshal parse_duration net ce decode_payload w
            (adapter_getenv marshal_overrides child_name secret
              (spec_set_defaults sink_defaults namespace spec)
              sink)
            its
            s)
  auto_refused net ce decode_payload w sink_defaults namespace spec sink its s auto =
      main-Refuses unmarshal parse_duration net ce decode_payload w _ its s (
        auto_not_loaded marshal_overrides child_name secret unmarshal parse_duration sink_defaults
          namespace spec sink auto)

  -- What the kubelet's probes of a container meet, whose variables are as rendered.
  pub record IsProbed (rendered : List EnvVar) (addr : Str) (c : Container) : Type 0 where
    pub env : c.env ≡ rendered
    pub port : addr ≡ bytes ":8080"
    pub liveness_port : c.liveness_probe.port ≡ 8080
    pub readiness_port : c.readiness_probe.port ≡ 8080
    pub live : serve (new_health_server addr) c.liveness_probe.path ≡ response 200 (bytes "ok")
    pub ready : serve (new_health_server addr) c.readiness_probe.path ≡ response 200 (bytes "ready")

  -- In each container of a rendered Deployment, an adapter that loads the container's variables
  -- listens on the port of the probes, and its health server answers both probes with status 200.
  pub probes_answered :
      {C : Type 0} (src : YipYapSource C) (sink : Option Str) (image : Str) {cfg : Config}
      → load_config unmarshal parse_duration
          (adapter_getenv marshal_overrides child_name secret src.spec sink)
        ≡ ok cfg
      → All
          (IsProbed (adapter_env marshal_overrides child_name src.spec sink) cfg.health_addr)
          (make_adapter_deployment marshal_overrides child_name src sink
            image).template.spec.containers
  unfolding make_adapter_deployment serve new_health_server lookup insert str_beq default_str
  probes_answered src sink image loaded = (
    record {
      env = refl;
      port =
          load_config-health_addr unmarshal parse_duration _ loaded
          ∙ ap (λ a. default_str a (bytes ":8080"))
              (adapter_getenv-health_addr marshal_overrides child_name secret src.spec sink);
      liveness_port = refl;
      readiness_port = refl;
      live = refl;
      ready = refl;
    },
    tt,
  )
