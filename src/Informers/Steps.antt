-- ===== src/Informers/Steps.antt =====
-- The courses of a factory, as steps that any number of clients make in any order.
use knative_source.Base.{Option, Str}
use knative_source.Base.Duration.{Duration}
use knative_source.Informers.{Kinds, Factory, start, shutdown, informer_for}

module _ (k : Kinds) (set_transform : Option k.Transform → k.Informer → k.Informer) where
  abbrev pub State : Type 0
  State = Factory k

  pub data Step : State → State → Type 0 where
    starts : (f : State) → Step f (start k f)
    shuts_down : (f : State) → Step f (shutdown k f)
    requests :
        (t : Str) (new_func : k.Client → Duration → k.Informer) (f : State)
        → Step f (informer_for k set_transform t new_func f).1

  pub data Steps : State → State → Type 0 where
    stays : (f : State) → Steps f f
    goes : (f g h : State) → Step f g → Steps g h → Steps f h
