-- ===== src/Tests/Informers.antt =====
-- Runs of the theorems on the informer factory.
use knative_source.Base.{◌≤◌, Option, [], ◌∷◌}
use knative_source.Base.Bytes.{bytes}
use knative_source.Base.Duration.{Duration, minute}
use knative_source.Base.Int.{pos}
use knative_source.Informers.{Kinds, Factory, new_factory, with_namespace, start, informer_for}
use knative_source.Informers.Steps.{starts, requests, Steps, stays, goes}
use knative_source.Informers.Once.{count, Keeps, factory_runs_once}

-- An informer is its resync period.
abbrev kinds : Kinds
kinds = record { Client = Unit {0}; Tweak = Unit {0}; Transform = Unit {0}; Informer = Duration }

abbrev same : Option (Unit {0}) → Duration → Duration
same t i = i

abbrev by_resync : Unit {0} → Duration → Duration
by_resync c d = d

abbrev fresh : Factory kinds
fresh = new_factory kinds tt (pos minute) (with_namespace kinds (bytes "ns") ∷ [])

abbrev requested : Factory kinds
requested = (informer_for kinds same (bytes "YipYapSource") by_resync fresh).1

abbrev twice_started : Factory kinds
twice_started = start kinds (start kinds requested)

-- A request and two starts.
to_started : Steps kinds same fresh twice_started
to_started = goes fresh requested twice_started (requests (bytes "YipYapSource") by_resync fresh) (
    goes requested (start kinds requested) twice_started (starts requested) (
      goes (start kinds requested) twice_started twice_started (starts (start kinds requested))
        (stays twice_started)))

with_namespace-Keeps : Keeps kinds same (with_namespace kinds (bytes "ns"))
unfolding with_namespace
with_namespace-Keeps f h = h

factory_runs_once_example : count (bytes "YipYapSource") twice_started.runs ≤ 1
factory_runs_once_example =
    factory_runs_once kinds same tt (pos minute) (with_namespace kinds (bytes "ns") ∷ [])
      twice_started (with_namespace-Keeps, tt) to_started (bytes "YipYapSource")
