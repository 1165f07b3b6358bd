-- ===== src/Tests/Clients.antt =====
-- Runs of the theorems on the generated clientset.
use knative_source.Base.{ℕ, ◌+◌, Option, none, some, [], Str, ltb}
use knative_source.Base.Bytes.{bytes}
use knative_source.Base.Int.{pos, pos_part}
use knative_source.Base.Result.{ok}
use knative_source.Clients.Clientset.{RestTypes, RestConfig, RestLib, Clientset}

-- A limiter is its burst, and the state the sum of the bursts. A client is the path of its
-- configuration.
abbrev types : RestTypes
types = record {
  Rate = ℕ;
  RateLimiter = ℕ;
  Serializer = Unit {0};
  Rest = Unit {0};
  HttpClient = Str;
  RestClient = Str;
  DiscoveryClient = Option ℕ;
  Error = Unit {0};
  State = ℕ;
}

abbrev lib : RestLib types
lib = record {
  is_positive = λ qps. ltb 0 qps;
  default_user_agent = bytes "agent";
  serializer = tt;
  http_client_for = λ c. ok c.user_agent;
  rest_client_for = λ c h. ok c.api_path;
  discovery_client_for = λ c h. ok c.rate_limiter;
  new_discovery_client = λ c. none;
  new_rate_limiter = λ qps burst s. (pos_part burst, s + pos_part burst);
}

abbrev config : RestConfig types
config = record {
  user_agent = [];
  rate_limiter = none;
  qps = 5;
  burst = pos 10;
  group_version = none;
  api_path = [];
  negotiated_serializer = none;
  rest = tt;
}

abbrev clientset : Clientset types
clientset = record { discovery = some 10; sources = record { rest_client = bytes "/apis" } }
