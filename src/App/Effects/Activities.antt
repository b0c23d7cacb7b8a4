-- ===== src/App/Effects/Activities.antt =====
-- A call of the server on activities is a sequence of calls of the activity engine.
use foundation_protocol.Prelude.{ℕ, arith, String, Option, none, some, ap, sym, subst}
use foundation_protocol.Protocol.Rules.{then_ok}
use foundation_protocol.Protocol.Json.{Fields}
use foundation_protocol.Protocol.Models.Activities.{ActivityState}
use foundation_protocol.Protocol.Normalize.{state}
use foundation_protocol.Runtime.Activities
use foundation_protocol.Runtime.Dispatch.{execute}
use foundation_protocol.Runtime.Compaction.{compact}
use foundation_protocol.App.State.{Environment, Stores, ServerState, utc_now}
use foundation_protocol.App.Quiet.{core, emit_event-Keeps}
use foundation_protocol.App.Sessions.{given_or_new}
use foundation_protocol.App.Activities.{
  activities_start, activities_update, activities_cancel, activities_complete,
}
use foundation_protocol.App.Calls.{
  ActivitiesCall, start_call, begin_call, resume_call, update_call, cancel_call, complete_call,
  run_activities,
}
use foundation_protocol.App.Effects.Sessions.{given_or_new_cases}
use foundation_protocol.App.Steps.{Step, activity, Steps, done, step}
use foundation_protocol.App.Start.{ActivityStartRequest, start_sync}
use foundation_protocol.App.Effects.Starting.{start_effect}
use foundation_protocol.App.Effects.AsyncStarting.{begin_effect, resume_effect}

module _ (env : Environment) (stores : Stores) (s : ServerState stores) where
  update_effect :
      (id : String) (next : ActivityState) (message : Option String) (patch : Option Fields)
      (producer : Option String)
      → Step stores
          (core s)
          (core (activities_update env stores id next message patch producer s).1)
  unfolding Activities.run activities_update utc_now
  update_effect id next message patch producer =
      activity {a = core s}
        (Activities.transition_call id (state next) message patch (env.utc_now s.readings)) tt
        (ground (arith, emit_event-Keeps env stores))

  cancel_effect :
      (id : String) (reason : Option String)
      → Step stores (core s) (core (activities_cancel env stores id reason s).1)
  unfolding Activities.run activities_cancel utc_now
  cancel_effect id reason =
      activity {a = core s} (Activities.cancel_call id reason (env.utc_now s.readings)) tt
        (ground (arith, emit_event-Keeps env stores))

  complete_effect :
      (id : String) (payload : Option Fields) (ref producer : Option String)
      → Step stores (core s) (core (activities_complete env stores id payload ref producer s).1)
  unfolding Activities.run activities_complete utc_now
  complete_effect id (some payload) none producer =
      let c = compact env.encoders s.compactor payload in
      activity {a = core s}
        (Activities.complete_call id c.inline_payload c.result_ref (env.utc_now s.readings)) tt
        (ground (arith, emit_event-Keeps env stores))
  complete_effect id none ref producer =
      activity {a = core s} (Activities.complete_call id none ref (env.utc_now s.readings)) tt
        (ground (arith, emit_event-Keeps env stores))
  complete_effect id (some payload) (some ref) producer =
      activity {a = core s}
        (Activities.complete_call id (some payload) (some ref) (env.utc_now s.readings)) tt
        (ground (arith, emit_event-Keeps env stores))

  activities_start_effect :
      (r : ActivityStartRequest) (given : Option String) (question : ℕ)
      → Steps stores (core s) (core (activities_start env stores r given question s).1)
  unfolding activities_start start_sync
  activities_start_effect r given question =
      let (id, n, p) = given_or_new_cases env stores s given "act-" in
      let request : ActivityStartRequest = record r { activity_id = id } in
      subst (λ c. Steps stores (core s) c)
        (sym (
          ap (λ x. core x.1)
            (then_ok (given_or_new env stores given "act-")
              (λ i. start_sync env stores (record r { activity_id = i }) question) s
              (record s { uuids = n }) id p)))
        (start_effect env stores request question (execute env.loop_running)
          (record s { uuids = n }))

  pub run_activities_effect :
      (c : ActivitiesCall) → Steps stores (core s) (core (run_activities env stores c s))
  unfolding run_activities
  run_activities_effect (start_call request id question) =
      activities_start_effect request id question
  run_activities_effect (begin_call request question dispatch) =
      begin_effect env stores request question dispatch s
  run_activities_effect (resume_call request waited outcome) =
      resume_effect env stores request waited outcome s
  run_activities_effect (update_call id next message patch producer) =
      step (update_effect id next message patch producer) done
  run_activities_effect (cancel_call id reason) = step (cancel_effect id reason) done
  run_activities_effect (complete_call id payload ref producer) =
      step (complete_effect id payload ref producer) done
