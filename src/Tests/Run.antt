-- ===== src/Tests/Run.antt =====
-- Runs of the theorems on the whole adapter.
use knative_source.Base.{◌≡◌, refl, arith, true, false, [], ◌∷◌, All, str_beq}
use knative_source.Base.Int.{pos}
use knative_source.Adapter.Config.{Config}
use knative_source.Adapter.Mode.Hint.{IsBounded}
use knative_source.Adapter.Run.{Iteration, run}
use knative_source.Adapter.Run.Coverage.{IsCoveredState, run_covered}
use knative_source.Adapter.Run.Sessions.{IsSound, run-IsSound, run_safe, run_panics}
use knative_source.Tests.Fixtures.{net, ce, config, hints}
use knative_source.Tests.Server.{poll_server, decode_payload, history, server-Extends}
use knative_source.Tests.World.{world, Posted, honest}

-- Two ticks of a poll session.
abbrev iteration : Iteration
iteration = record {
  hints = hints;
  cancelled_wait = false;
  ticks = poll_server ∷ poll_server ∷ [];
  attempts = [];
}

-- Nothing is posted before, and the cursor file is empty.
run_covered_example :
    IsCoveredState net ce decode_payload world config Posted honest history
      (run net ce decode_payload world config (iteration ∷ []) ([], [])).world
unfolding str_beq
run_covered_example =
    run_covered net ce decode_payload world config Posted honest history (iteration ∷ []) ([], [])
      ((λ d. (server-Extends d, (server-Extends d, tt))), tt) tt

run-IsSound_example :
    All IsSound (run net ce decode_payload world config (iteration ∷ iteration ∷ []) ([], [])).steps
run-IsSound_example =
    run-IsSound net ce decode_payload world config (iteration ∷ iteration ∷ []) ([], [])

hints-IsBounded : IsBounded hints
hints-IsBounded body h e = ground arith

run_safe_example :
    (run net ce decode_payload world config (iteration ∷ iteration ∷ []) ([], [])).panicked ≡ false
run_safe_example =
    run_safe net ce decode_payload world config (iteration ∷ iteration ∷ []) ([], []) refl
      (hints-IsBounded, (hints-IsBounded, tt))

abbrev zero_interval : Config
zero_interval = record config { poll_interval = pos 0 }

run_panics_example :
    ((run net ce decode_payload world zero_interval (iteration ∷ []) ([], [])).panicked ≡ true)
    × ((run net ce decode_payload world zero_interval (iteration ∷ []) ([], [])).world ≡ ([], []))
run_panics_example =
    run_panics net ce decode_payload world zero_interval iteration [] ([], []) refl refl
