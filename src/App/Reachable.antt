-- ===== src/App/Reachable.antt =====
-- Every call of the server is a sequence of the steps of its stores, and so keeps every reference
-- between their objects.
use foundation_protocol.Prelude.{List, [], ◌∷◌}
use foundation_protocol.App.State.{Environment, Stores, ServerState}
use foundation_protocol.App.Quiet.{core}
use foundation_protocol.App.Steps.{stay, Steps, done, step, Steps-trans}
use foundation_protocol.App.Calls.{
  ServerCall, on_graph, on_sessions, on_activities, on_economy, other, run, run_all,
}
use foundation_protocol.App.Effects.Graph.{run_graph_effect}
use foundation_protocol.App.Effects.Sessions.{run_sessions_effect}
use foundation_protocol.App.Effects.Activities.{run_activities_effect}
use foundation_protocol.App.Effects.Economy.{run_economy_effect}
use foundation_protocol.App.Effects.Other.{run_other_same}
use foundation_protocol.App.Links.Invariant.{IsLinked, steps-IsLinked}

module _ (env : Environment) (stores : Stores) where
  run-Steps :
      (c : ServerCall) (s : ServerState stores) → Steps stores (core s) (core (run env stores c s))
  unfolding run
  run-Steps (on_graph c) s = step (run_graph_effect env stores s c) done
  run-Steps (on_sessions c) s = step (run_sessions_effect env stores s c) done
  run-Steps (on_activities c) s = run_activities_effect env stores s c
  run-Steps (on_economy c) s = step (run_economy_effect env stores s c) done
  run-Steps (other c) s = step (stay (run_other_same env stores s c)) done

  pub run_all-Steps :
      (calls : List ServerCall) (s : ServerState stores)
      → Steps stores (core s) (core (run_all env stores calls s))
  unfolding run_all
  run_all-Steps [] s = done
  run_all-Steps (c ∷ calls) s =
      Steps-trans stores (run-Steps c s) (run_all-Steps calls (run env stores c s))

  -- If every stored object refers to stored objects only, this holds after any list of calls of the
  -- server, whether they raise or not: each participant of a session is a registered entity, the
  -- session, the owner and the initiator of an activity are stored, and so are the organization of
  -- a membership and the receipts of a settlement. The condition includes that the session,
  -- activity and membership stores are valid.
  pub run_all-IsLinked :
      (calls : List ServerCall) (s : ServerState stores)
      → IsLinked stores (core s)
      → IsLinked stores (core (run_all env stores calls s))
  run_all-IsLinked calls s linked = steps-IsLinked stores (run_all-Steps calls s) linked
