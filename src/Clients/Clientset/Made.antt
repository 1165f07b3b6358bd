-- ===== src/Clients/Clientset/Made.antt =====
-- The parts of a clientset that NewForConfig makes.
use knative_source.Base.{◌≡◌, true, false, some, str_eq}
use knative_source.Base.Bytes.{bytes}
use knative_source.Base.Int.{pos, ltb_ℤ}
use knative_source.Base.Result.{Result, ok}
use knative_source.Clients.Clientset.{
  RestTypes, RestConfig, RestLib, Clientset, scheme_group_version, default_agent,
}
use knative_source.Clients.Clientset.Laws.{is_limited}

module _ (k : RestTypes) (lib : RestLib k) where
  -- The limiter that both clients share: the one that is given, none if no rate is asked for, or a
  -- new one, of a burst that is positive.
  pub data Limits (c : RestConfig k) (s : k.State) : RestConfig k → k.State → Type 0 where
    given : is_limited k lib c ≡ false → Limits c s c s
    fresh :
        (limiter : k.RateLimiter) (s' : k.State)
        → is_limited k lib c ≡ true
        → ltb_ℤ (pos 0) c.burst ≡ true
        → lib.new_rate_limiter c.qps c.burst s ≡ (limiter, s')
        → Limits c s (record c { rate_limiter = some limiter }) s'

  -- Both clients are made with one HTTP client and one limiter, the client of the group under its
  -- version and path.
  pub record IsMade (c : RestConfig k) (s : k.State) (cs : Clientset k) (s' : k.State)
      : Type 0 where
    pub http : k.HttpClient
    pub config : RestConfig k
    pub shared_http : lib.http_client_for (default_agent k lib c) ≡ ok http
    pub limits : Limits (default_agent k lib c) s config s'
    pub group_config : RestConfig k
    pub version : group_config.group_version ≡ some scheme_group_version
    pub path : group_config.api_path ≡ bytes "/apis"
    pub shared_limiter : group_config.rate_limiter ≡ config.rate_limiter
    pub sources_made : lib.rest_client_for group_config http ≡ ok cs.sources.rest_client
    pub discovery_made : lib.discovery_client_for config http ≡ ok cs.discovery
