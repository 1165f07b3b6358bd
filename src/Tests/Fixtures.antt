-- ===== src/Tests/Fixtures.antt =====
-- Concrete libraries, events, hints and a world, for the tests.
use knative_source.Base.{
  ◌*◌, true, none, some, List, [], ◌∷◌, ◌++◌, Str, str_eq, ◌==◌, if◌then◌else◌,
}
use knative_source.Base.Bytes.{bytes}
use knative_source.Base.Dict.{Dict, insert}
use knative_source.Base.Duration.{second}
use knative_source.Base.Int.{pos}
use knative_source.Base.Http.{UrlLib, response, values_of}
use knative_source.Adapter.Config.{Config}
use knative_source.Adapter.Event.{CloudEvents}
use knative_source.Adapter.Mode.{HintSource}

abbrev pub first_of : List Str → Str
first_of [] = []
first_of (v ∷ vs) = v

-- A URL is its text; the text of a changed one ends with the parameter `since`.
abbrev pub net : UrlLib
net = record {
  parse_url =
      λ s. if s == [] then none else some (record { location = s; path = []; raw_query = [] });
  path_join = λ a b. a ++ b;
  query = λ u. [];
  encode = λ v. first_of (values_of (bytes "since") v);
  url_string = λ u. u.location ++ u.raw_query;
  is_requestable = λ s. true;
}

pub record TestEvent : Type 0 where
  pub id : Str
  pub extensions : Dict Str Str

abbrev pub event : Str → TestEvent
event s = record { id = s; extensions = [] }

-- The text of an event is its identifier, and "bad" is malformed.
abbrev pub ce : CloudEvents
ce = record {
  Event = TestEvent;
  spec_version = λ e. bytes "1.0";
  id = λ e. e.id;
  source = λ e. bytes "yipyap";
  type_name = λ e. bytes "run.yipyap.monitor.up.v1";
  time = λ e. none;
  subject = λ e. [];
  data_content_type = λ e. [];
  payload = λ e. some (bytes "{}");
  extensions = λ e. e.extensions;
  set_extension = λ k v e. record e { extensions = insert k v e.extensions };
  unmarshal = λ s. if s == bytes "bad" then none else some (event s);
}

abbrev pub config : Config
config = record {
  sink = bytes "s";
  ce_overrides = (bytes "team", bytes "ops") ∷ [];
  api_key = bytes "k";
  base_url = bytes "b";
  event_filters = bytes "run.yipyap.*" ∷ [];
  mode = bytes "poll";
  poll_interval = pos (5 * second);
  cursor_path = bytes "/var/run/yipyap/cursor";
  health_addr = bytes ":8080";
  cr_mode_file_path = bytes "/etc/yipyap/source-mode";
}

-- A server that recommends streaming.
abbrev pub hints : HintSource
hints = record {
  read_file = λ p. none;
  client_do = λ req. response 200 (bytes "stream");
  decode_hint = λ b. some (record {
    recommended_mode = b;
    poll_interval_seconds = pos 7;
    refresh_after_seconds = pos 90;
  });
}
