-- ===== src/Tests/Sessions.antt =====
-- Sessions in the in-memory store.
use foundation_protocol.Prelude.{◌≡◌, refl, none, some, List, [], ◌∷◌}
use foundation_protocol.Dict
use foundation_protocol.Protocol.Errors.{err, fp_error, not_found}
use foundation_protocol.Protocol.Models.Sessions.{Session, paused}
use foundation_protocol.Stores.Kv
use foundation_protocol.Stores.Kv.Laws.{IsKeyed-empty}
use foundation_protocol.Stores.Memory.{in_memory_sessions}
use foundation_protocol.Runtime.Revise.{revise}
use foundation_protocol.Runtime.Sessions.{
  SessionCall, create_call, join_call, update_call, close_call, join, run, run_all,
}
use foundation_protocol.Runtime.Sessions.States.{Moves}
use foundation_protocol.Runtime.Sessions.Calls.{run-error}
use foundation_protocol.Runtime.Sessions.Frozen.{run-Moves, run_all-frozen}
use foundation_protocol.Runtime.Sessions.WellFormed.{AllWellFormed, run_all-AllWellFormed}
use foundation_protocol.Tests.Samples.{
  new_session, closed_session, active_session, session_states, session_states-IsKeyed,
}

abbrev calls : List SessionCall
calls =
    create_call new_session
    ∷ join_call "s1" "cat" none 3
    ∷ join_call "s2" "cat" none 4
    ∷ update_call "s1" none none (some paused) [] 5
    ∷ close_call "s1" none 6
    ∷ []

nothing-AllWellFormed : AllWellFormed in_memory_sessions Kv.empty
unfolding Kv.get Dict.get
nothing-AllWellFormed id v e = cc

run_all-AllWellFormed_example :
    AllWellFormed in_memory_sessions (run_all in_memory_sessions calls Kv.empty)
run_all-AllWellFormed_example =
    run_all-AllWellFormed in_memory_sessions calls Kv.empty
      (IsKeyed-empty (λ session. session.session_id)) nothing-AllWellFormed

closed_here : Kv.get session_states "s2" ≡ some closed_session
unfolding Kv.get Kv.put Dict.get Dict.put
closed_here = refl

active_here : Kv.get session_states "s3" ≡ some active_session
unfolding Kv.get Kv.put Dict.get Dict.put
active_here = refl

run_all-frozen_example :
    Kv.get (run_all in_memory_sessions calls session_states) "s2" ≡ some closed_session
run_all-frozen_example =
    run_all-frozen in_memory_sessions calls session_states "s2" closed_session
      session_states-IsKeyed closed_here refl

run-Moves_example :
    (new : Session) × (Kv.get
        (run in_memory_sessions (close_call "s3" none 7) session_states).1
        "s3"
      ≡ some new)
    × Moves active_session.state new.state
run-Moves_example =
    run-Moves in_memory_sessions session_states (close_call "s3" none 7) "s3" active_session
      session_states-IsKeyed active_here

raises :
    (run in_memory_sessions (join_call "s7" "cat" none 3) session_states).0
    ≡ err (fp_error not_found)
unfolding run join revise Kv.get Kv.put Dict.get Dict.put
raises = refl

run-error_example :
    (run in_memory_sessions (join_call "s7" "cat" none 3) session_states).1 ≡ session_states
run-error_example =
    run-error in_memory_sessions session_states (join_call "s7" "cat" none 3) (fp_error not_found)
      raises
