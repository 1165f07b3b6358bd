-- ===== src/Clients/Clientset.antt =====
-- pkg/client/clientset/versioned/clientset.go, with the client of the group in
-- typed/sources/v1alpha1/sources_client.go and that of the sources in yipyapsource.go.
pub mod Laws
pub mod Made
use knative_source.Base.{
  Bool, true, false, not, ◌&&◌, is_some, Option, none, some, [], Str, str_eq, ◌==◌, if◌then◌else◌,
}
use knative_source.Base.Bytes.{bytes}
use knative_source.Base.Int.{ℤ, pos, ltb_ℤ}
use knative_source.Base.Result.{Result, ok, err}
use knative_source.Api.Registration.{GroupVersion, scheme_group_version}

-- The types of k8s.io/client-go: a rate (`float32`), a limiter, a serializer, the rest of a
-- configuration, the clients that it makes, and its errors; with the state of its calls.
pub record RestTypes : Type 1 where
  pub Rate : Type 0
  pub RateLimiter : Type 0
  pub Serializer : Type 0
  pub Rest : Type 0
  pub HttpClient : Type 0
  pub RestClient : Type 0
  pub DiscoveryClient : Type 0
  pub Error : Type 0
  pub State : Type 0

-- `rest.Config`, as far as the clients read it or set it.
pub record RestConfig (k : RestTypes) : Type 0 where
  pub user_agent : Str
  pub rate_limiter : Option k.RateLimiter
  pub qps : k.Rate
  pub burst : ℤ
  pub group_version : Option GroupVersion
  pub api_path : Str
  pub negotiated_serializer : Option k.Serializer
  pub rest : k.Rest

-- What client-go does: whether a rate is positive, `DefaultKubernetesUserAgent`, the serializer of
-- `CodecFactoryForGeneratedClient`, `HTTPClientFor`, `RESTClientForConfigAndClient`,
-- `NewDiscoveryClientForConfigAndClient`, `NewDiscoveryClient` and `NewTokenBucketRateLimiter`.
pub record RestLib (k : RestTypes) : Type 0 where
  pub is_positive : k.Rate → Bool
  pub default_user_agent : Str
  pub serializer : k.Serializer
  pub http_client_for : RestConfig k → Result k.Error k.HttpClient
  pub rest_client_for : RestConfig k → k.HttpClient → Result k.Error k.RestClient
  pub discovery_client_for : RestConfig k → k.HttpClient → Result k.Error k.DiscoveryClient
  pub new_discovery_client : k.RestClient → k.DiscoveryClient
  pub new_rate_limiter : k.Rate → ℤ → k.State → k.RateLimiter × k.State

pub data ClientError (k : RestTypes) : Type 0 where
  burst_required : ClientError k
  failed : k.Error → ClientError k

pub record SourcesClient (k : RestTypes) : Type 0 where
  pub rest_client : k.RestClient

pub record Clientset (k : RestTypes) : Type 0 where
  pub discovery : k.DiscoveryClient
  pub sources : SourcesClient k

-- `gentype.ClientWithList`, as it is made for the sources of a namespace.
pub record YipYapSources (k : RestTypes) : Type 0 where
  pub resource : Str
  pub client : Option k.RestClient
  pub namespace : Str

module _ (k : RestTypes) (lib : RestLib k) where
  open k use {HttpClient, RestClient, Error, State}
  open lib use {is_positive, default_user_agent}

  abbrev pub default_agent : RestConfig k → RestConfig k
  default_agent c = if c.user_agent == [] then record c { user_agent = default_user_agent } else c

  unfoldable pub set_config_defaults : RestConfig k → RestConfig k
  set_config_defaults c = default_agent (record c {
    group_version = some scheme_group_version;
    api_path = bytes "/apis";
    negotiated_serializer = some lib.serializer;
  })

  unfoldable pub sources_for_config_and_client :
      RestConfig k → HttpClient → Result Error (SourcesClient k)
  sources_for_config_and_client c h = elim (lib.rest_client_for (set_config_defaults c) h) [
    | err e ↦ err e
    | ok client ↦ ok (record { rest_client = client })
  ]

  -- `NewForConfig` of the group's client.
  unfoldable pub sources_for_config : RestConfig k → Result Error (SourcesClient k)
  sources_for_config c = elim (lib.http_client_for (set_config_defaults c)) [
    | err e ↦ err e
    | ok h ↦ sources_for_config_and_client (set_config_defaults c) h
  ]

  -- `New` of the group's client.
  unfoldable pub new_sources : RestClient → SourcesClient k
  new_sources c = record { rest_client = c }

  -- `RESTClient`, on a pointer that may be nil.
  unfoldable pub rest_client : Option (SourcesClient k) → Option RestClient
  rest_client none = none
  rest_client (some c) = some c.rest_client

  unfoldable pub new_yipyap_sources : SourcesClient k → Str → YipYapSources k
  unfolding rest_client
  new_yipyap_sources c namespace = record {
    resource = bytes "yipyapsources";
    client = rest_client (some c);
    namespace = namespace;
  }

  -- The limiter that a configuration without one is given: both clients share it.
  limited : RestConfig k → State → Result (ClientError k) (RestConfig k) × State
  limited c s =
      if not (is_some c.rate_limiter) && is_positive c.qps
      then (if not (ltb_ℤ (pos 0) c.burst)
          then (err burst_required, s)
          else (let (limiter, s') = lib.new_rate_limiter c.qps c.burst s in
              (ok (record c { rate_limiter = some limiter }), s')))
      else (ok c, s)

  both_clients : RestConfig k → HttpClient → Result (ClientError k) (Clientset k)
  both_clients c h = elim (sources_for_config_and_client c h) [
    | err e ↦ err (failed e)
    | ok sources ↦ elim (lib.discovery_client_for c h) [
      | err e ↦ err (failed e)
      | ok discovery ↦ ok (record { discovery = discovery; sources = sources })
    ]
  ]

  with_limited :
      HttpClient
      → Result (ClientError k) (RestConfig k) × State
      → Result (ClientError k) (Clientset k) × State
  unfolding both_clients
  with_limited h (err e, s) = (err e, s)
  with_limited h (ok c, s) = (both_clients c h, s)

  unfoldable pub new_for_config_and_client :
      RestConfig k → HttpClient → State → Result (ClientError k) (Clientset k) × State
  unfolding limited with_limited
  new_for_config_and_client c h s = with_limited h (limited c s)

  with_http :
      RestConfig k → Result Error HttpClient → State → Result (ClientError k) (Clientset k) × State
  with_http c (err e) s = (err (failed e), s)
  with_http c (ok h) s = new_for_config_and_client c h s

  unfoldable pub new_for_config :
      RestConfig k → State → Result (ClientError k) (Clientset k) × State
  unfolding with_http
  new_for_config c s = with_http (default_agent c) (lib.http_client_for (default_agent c)) s

  -- `NewForConfigOrDie`: `none` is a panic.
  or_die : Result (ClientError k) (Clientset k) × State → Option (Clientset k) × State
  or_die (err e, s) = (none, s)
  or_die (ok cs, s) = (some cs, s)

  unfoldable pub new_for_config_or_die : RestConfig k → State → Option (Clientset k) × State
  unfolding or_die
  new_for_config_or_die c s = or_die (new_for_config c s)

  -- `NewForConfigOrDie` of the group's client: `none` is a panic.
  unfoldable pub sources_for_config_or_die : RestConfig k → Option (SourcesClient k)
  sources_for_config_or_die c = elim (sources_for_config c) [
    | err e ↦ none
    | ok client ↦ some client
  ]

  -- `SourcesV1alpha1` and `YipYapSources`, on pointers that are not nil.
  unfoldable pub sources_v1alpha1 : Clientset k → SourcesClient k
  sources_v1alpha1 c = c.sources

  unfoldable pub yipyap_sources : SourcesClient k → Str → YipYapSources k
  yipyap_sources c namespace = new_yipyap_sources c namespace

  -- `Discovery`, on a pointer that may be nil.
  unfoldable pub discovery : Option (Clientset k) → Option k.DiscoveryClient
  discovery none = none
  discovery (some c) = some c.discovery

  unfoldable pub new_clientset : RestClient → Clientset k
  unfolding new_sources
  new_clientset c = record { discovery = lib.new_discovery_client c; sources = new_sources c }
