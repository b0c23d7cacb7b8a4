-- ===== src/Runtime/Activities/States.antt =====
-- What each method of the engine may make of a stored activity.
use foundation_protocol.Prelude.{
  ℕ, String, ◌≡◌, refl, inl, inr, Bool, true, false, not, Option, arith,
}
use foundation_protocol.Protocol.Errors.{ok}
use foundation_protocol.Protocol.Json.{Fields}
use foundation_protocol.Protocol.Models.Activities.{
  ActivityState, submitted, working, input_required, auth_required, completed, failed, canceled,
  rejected, Activity,
}
use foundation_protocol.Protocol.Normalize.{StateName, normalize_activity_state}
use foundation_protocol.Runtime.Revise.{Result-cases}
use foundation_protocol.Runtime.Activities.{
  allowed_transition, is_terminal, transitioned, completed_with, failed_with, canceled_with,
}

-- The moves that the methods make: along the table, to `COMPLETED` or `CANCELED` from a state that
-- is not terminal, and by `fail` to `FAILED` from any state.
unfoldable pub can_move : ActivityState → ActivityState → Bool
can_move a failed = true
can_move a completed = not (is_terminal a)
can_move a canceled = not (is_terminal a)
can_move a b = allowed_transition a b

-- What a change keeps of an activity, and where it may go.
pub record IsStep (old new : Activity) : Type 0 where
  pub same_id : new.activity_id ≡ old.activity_id
  pub same_session : new.session_id ≡ old.session_id
  pub same_owner : new.owner_entity_id ≡ old.owner_entity_id
  pub same_initiator : new.initiator_entity_id ≡ old.initiator_entity_id
  pub same_operation : new.operation ≡ old.operation
  pub moves : can_move old.state new.state ≡ true

-- The table leads nowhere from a terminal state, and nowhere else than where a move leads.
pub table_stops : (a b : ActivityState) → allowed_transition a b ≡ true → is_terminal a ≡ false
unfolding allowed_transition
table_stops submitted b h = refl
table_stops working b h = refl
table_stops input_required b h = refl
table_stops auth_required b h = refl
table_stops completed b h = cc
table_stops failed b h = cc
table_stops canceled b h = cc
table_stops rejected b h = cc

table_moves : (a b : ActivityState) → allowed_transition a b ≡ true → can_move a b ≡ true
unfolding can_move
table_moves a failed h = refl
table_moves a completed h = ground (arith, table_stops a completed h)
table_moves a canceled h = ground (arith, table_stops a canceled h)
table_moves a _ h = h

pub transitioned-IsStep :
    (name : StateName) (message : Option String) (patch : Option Fields) (now : ℕ)
    (old new : Activity)
    → transitioned name message patch now old ≡ ok new
    → IsStep old new × (allowed_transition old.state new.state ≡ true)
unfolding transitioned
transitioned-IsStep name message patch now old new h =
    elim (Result-cases (normalize_activity_state name)) [
      | inr (e, p) ↦ cc (rw (p, transitioned) at h)
      | inl (state, p) ↦ ground (arith, p, h, table_moves old.state state)
    ]

pub completed_with-IsStep :
    (payload : Option Fields) (ref : Option String) (now : ℕ) (old new : Activity)
    → completed_with payload ref now old ≡ ok new
    → IsStep old new × (is_terminal old.state ≡ false)
unfolding completed_with can_move
completed_with-IsStep payload ref now old new h = ground arith

pub canceled_with-IsStep :
    (reason : Option String) (now : ℕ) (old new : Activity)
    → canceled_with reason now old ≡ ok new
    → IsStep old new × (is_terminal old.state ≡ false)
unfolding canceled_with can_move
canceled_with-IsStep reason now old new h = ground arith

pub failed_with-IsStep :
    (message : String) (details : Option Fields) (now : ℕ) (old new : Activity)
    → failed_with message details now old ≡ ok new
    → IsStep old new
unfolding failed_with can_move
failed_with-IsStep message details now old new h = ground arith
