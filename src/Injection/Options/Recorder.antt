-- ===== src/Injection/Options/Recorder.antt =====
-- `createRecorder` of controller.go.
use knative_source.Base.{Option, none, some, List, [], ◌∷◌, Str}

-- The types of the event recorder of k8s.io/client-go, with the state of its calls.
pub record RecorderTypes : Type 1 where
  pub Context : Type 0
  pub Recorder : Type 0
  pub Broadcaster : Type 0
  pub Watch : Type 0
  pub State : Type 0

-- `controller.GetEventRecorder`, `record.NewBroadcaster`, the two watches of a broadcaster, its
-- `NewRecorder` for the name of a component, and `Stop` of a watch.
pub record RecorderLib (k : RecorderTypes) : Type 0 where
  pub get_event_recorder : k.Context → Option k.Recorder
  pub new_broadcaster : k.State → k.Broadcaster × k.State
  pub start_logging : k.Broadcaster → k.State → k.Watch × k.State
  pub start_recording_to_sink : k.Broadcaster → k.State → k.Watch × k.State
  pub new_recorder : k.Broadcaster → Str → k.Recorder
  pub stop : k.Watch → k.State → k.State

module _ (k : RecorderTypes) (lib : RecorderLib k) where
  open k use {Context, Recorder, Watch, State}

  -- What the goroutine does when the context ends.
  unfoldable pub stop_all : List Watch → State → State
  stop_all [] s = s
  stop_all (w ∷ ws) s = stop_all ws (lib.stop w s)

  -- The recorder, with the watches that the goroutine stops.
  make_recorder : Str → State → (Recorder × List Watch) × State
  make_recorder agent_name s =
      let (broadcaster, s₁) = lib.new_broadcaster s in
      let (logging, s₂) = lib.start_logging broadcaster s₁ in
      let (recording, s₃) = lib.start_recording_to_sink broadcaster s₂ in
      ((lib.new_recorder broadcaster agent_name, logging ∷ recording ∷ []), s₃)

  unfoldable pub create_recorder : Context → Str → State → (Recorder × List Watch) × State
  unfolding make_recorder
  create_recorder ctx agent_name s = elim (lib.get_event_recorder ctx) [
    | some recorder ↦ ((recorder, []), s)
    | none ↦ make_recorder agent_name s
  ]
