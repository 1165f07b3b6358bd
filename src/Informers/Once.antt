-- ===== src/Informers/Once.antt =====
-- A factory runs each informer at most once, none behind its shutdown, and hands out one informer
-- for a type.
use knative_source.Base.{
  ◌≡◌, refl, ◌≤◌, ℕ, ◌+◌, suc, Bool, true, false, Option, none, some, List, [], ◌∷◌, ◌++◌, contains,
  All, if◌then◌else◌, Str, str_eq, str_beq_iff, ◌==◌, arith,
}
use knative_source.Base.Dict.{Dict, lookup}
use knative_source.Base.Duration.{Duration}
use knative_source.Informers.{
  Kinds, Factory, FactoryOption, apply_options, new_factory, start, start_unless, informer_from,
  start_one, start_loop, shutdown, informer_for,
}
use knative_source.Informers.Steps.{Step, starts, shuts_down, requests, Steps, stays, goes}

-- How often a name is in a list.
pub count : Str → List Str → ℕ
count t [] = 0
count t (x ∷ xs) = let rest = count t xs in if x == t then suc rest else rest

count-append :
    (t : Str) (xs : List Str) (y : Str) → count t (xs ++ (y ∷ [])) ≡ count t xs + count t (y ∷ [])
unfolding count
count-append t [] y = omega arith
count-append t (x ∷ xs) y = ground (arith, count-append t xs y)

module _ (k : Kinds) where
  -- What was run is what is marked as started, and each is run once.
  abbrev pub IsSingle : Factory k → Type 0
  IsSingle f = (t : Str) → count t f.runs ≡ (if contains f.started_informers t then 1 else 0)

  start_one-IsSingle : (t : Str) (f : Factory k) → IsSingle f → IsSingle (start_one k t f)
  unfolding start_one count
  start_one-IsSingle t f h u = ground (arith, h u, h t, count-append u f.runs t, str_beq_iff t u)

  start_loop-IsSingle :
      (is : Dict Str k.Informer) (f : Factory k) → IsSingle f → IsSingle (start_loop k is f)
  unfolding start_loop
  start_loop-IsSingle [] f h = h
  start_loop-IsSingle ((t, i) ∷ is) f h =
      start_loop-IsSingle is (start_one k t f) (start_one-IsSingle t f h)

  start_unless-IsSingle :
      (down : Bool) (f : Factory k) → IsSingle f → IsSingle (start_unless k down f)
  unfolding start_unless
  start_unless-IsSingle true f h = h
  start_unless-IsSingle false f h = start_loop-IsSingle f.informers f h

  module _ (set_transform : Option k.Transform → k.Informer → k.Informer) where
    informer_from-IsSingle :
        (t : Str) (new_func : k.Client → Duration → k.Informer) (f : Factory k)
        (o : Option k.Informer)
        → IsSingle f
        → IsSingle (informer_from k set_transform t new_func f o).1
    unfolding informer_from
    informer_from-IsSingle t new_func f none h = h
    informer_from-IsSingle t new_func f (some i) h = h

    step-IsSingle : (f g : Factory k) → Step k set_transform f g → IsSingle f → IsSingle g
    unfolding start shutdown informer_for
    step-IsSingle f g (starts f') h = start_unless-IsSingle f.shutting_down f h
    step-IsSingle f g (shuts_down f') h = h
    step-IsSingle f g (requests t new_func f') h =
        informer_from-IsSingle t new_func f (lookup t f.informers) h

    Steps-IsSingle : (f g : Factory k) → Steps k set_transform f g → IsSingle f → IsSingle g
    Steps-IsSingle f g (stays f') h = h
    Steps-IsSingle f g (goes f' g' h' s ss) h = Steps-IsSingle g' g ss (step-IsSingle f g' s h)

    -- An option that starts nothing, as each of the package does.
    abbrev pub Keeps : FactoryOption k → Type 0
    Keeps option = (f : Factory k) → IsSingle f → IsSingle (option f)

    apply_options-IsSingle :
        (options : List (FactoryOption k)) (f : Factory k)
        → All Keeps options
        → IsSingle f
        → IsSingle (apply_options k options f)
    unfolding apply_options
    apply_options-IsSingle [] f keep h = h
    apply_options-IsSingle (option ∷ options) f keep h =
        apply_options-IsSingle options (option f) keep.1 (keep.0 f h)

    new_factory-IsSingle :
        (client : k.Client) (resync : Duration) (options : List (FactoryOption k))
        → All Keeps options
        → IsSingle (new_factory k client resync options)
    unfolding new_factory count
    new_factory-IsSingle client resync options keep =
        apply_options-IsSingle options _ keep (λ t. refl)

    -- However often and in whatever order its clients call `Start`, `Shutdown` and `InformerFor`, a
    -- new factory whose options start nothing runs no informer twice.
    pub factory_runs_once :
        (client : k.Client) (resync : Duration) (options : List (FactoryOption k)) (g : Factory k)
        → All Keeps options
        → Steps k set_transform (new_factory k client resync options) g
        → (t : Str) → count t g.runs ≤ 1
    factory_runs_once client resync options g keep steps t =
        ground (arith, Steps-IsSingle _ g steps (new_factory-IsSingle client resync options keep) t)
