-- ===== src/Runtime/Activities.antt =====
-- src/fp/runtime/activity_engine.py. The clock's readings are arguments. A method that changes a
-- stored activity is a revision by a pure function of the activity.
pub mod Pages
pub mod States
pub mod Calls
pub mod Scanning
pub mod Listing
pub mod InMemory
use foundation_protocol.Prelude.{
  ℕ, zero, suc, String, Bool, true, false, not, ◌&&◌, Option, none, some, List, [], ◌∷◌, ◌++◌, keep,
  length, leb, is_none, is_empty, ◌==◌, nat_eq, if◌then◌else◌,
}
use foundation_protocol.Protocol.Errors.{
  Result, ok, err, Exec, fp_error, already_exists, invalid_argument, invalid_state_transition,
  check, raise_if, lift, pure, gets, ◌>>=◌, ◌>>◌,
}
use foundation_protocol.Protocol.Json.{Fields, end, update_fields}
use foundation_protocol.Protocol.Models.Activities.{
  ActivityState, submitted, working, input_required, auth_required, completed, failed, canceled,
  rejected, Activity, init_activity,
}
use foundation_protocol.Protocol.Normalize.{StateName, normalize_activity_state}
use foundation_protocol.Stores.Interfaces.{ActivityStore}
use foundation_protocol.Runtime.Revise.{fetch, save, revise}

-- `_ALLOWED_TRANSITIONS`
unfoldable pub allowed_transition : ActivityState → ActivityState → Bool
allowed_transition submitted working = true
allowed_transition submitted canceled = true
allowed_transition submitted rejected = true
allowed_transition working input_required = true
allowed_transition working auth_required = true
allowed_transition working completed = true
allowed_transition working failed = true
allowed_transition working canceled = true
allowed_transition working rejected = true
allowed_transition input_required working = true
allowed_transition input_required canceled = true
allowed_transition auth_required working = true
allowed_transition auth_required canceled = true
allowed_transition auth_required rejected = true
allowed_transition _ _ = false

-- `state in {COMPLETED, FAILED, CANCELED, REJECTED}`
abbrev pub is_terminal : ActivityState → Bool
is_terminal completed = true
is_terminal failed = true
is_terminal canceled = true
is_terminal rejected = true
is_terminal _ = false

-- The states from which `complete` is accepted.
abbrev pub can_complete : ActivityState → Bool
can_complete submitted = true
can_complete working = true
can_complete input_required = true
can_complete auth_required = true
can_complete _ = false

-- `a is b` on two states
abbrev rank : ActivityState → ℕ
rank submitted = 0
rank working = 1
rank input_required = 2
rank auth_required = 3
rank completed = 4
rank failed = 5
rank canceled = 6
rank rejected = 7

abbrev pub same_state : ActivityState → ActivityState → Bool
same_state a b = nat_eq (rank a) (rank b)

-- The arguments of `start`, and the two readings of the clock in `Activity(...)`.
pub record NewActivity : Type 0 where
  pub activity_id : String
  pub session_id : String
  pub owner_entity_id : String
  pub initiator_entity_id : String
  pub operation : String
  pub input_payload : Fields
  pub created_at : ℕ
  pub updated_at : ℕ

unfoldable pub started : NewActivity → Activity
started n = record {
  activity_id = n.activity_id;
  session_id = n.session_id;
  owner_entity_id = n.owner_entity_id;
  initiator_entity_id = n.initiator_entity_id;
  state = submitted;
  operation = some n.operation;
  input_payload = n.input_payload;
  result_payload = none;
  result_ref = none;
  status_message = none;
  error = none;
  created_at = n.created_at;
  updated_at = n.updated_at;
}

-- `if patch: activity.input_payload.update(patch)`
abbrev patched : Option Fields → Fields → Fields
patched none payload = payload
patched (some patch) payload = update_fields payload patch

abbrev moved : Option String → Option Fields → ℕ → Activity → ActivityState → Result Activity
moved status_message patch now activity state =
    check (not (allowed_transition activity.state state)) invalid_state_transition (
      ok (record activity {
        state = state;
        status_message = status_message;
        input_payload = patched patch activity.input_payload;
        updated_at = now;
      }))

abbrev with_normalized : Result ActivityState → (ActivityState → Result Activity) → Result Activity
with_normalized (ok state) f = f state
with_normalized (err e) f = err e

unfoldable pub transitioned :
    StateName → Option String → Option Fields → ℕ → Activity → Result Activity
unfolding allowed_transition
transitioned next_state status_message patch now activity =
    with_normalized (normalize_activity_state next_state) (moved status_message patch now activity)

unfoldable pub completed_with : Option Fields → Option String → ℕ → Activity → Result Activity
completed_with result_payload result_ref now activity =
    check (not (can_complete activity.state)) invalid_state_transition (
      ok (record activity {
        state = completed;
        result_payload = result_payload;
        result_ref = result_ref;
        updated_at = now;
      }))

abbrev or_empty : Option Fields → Fields
or_empty none = end
or_empty (some d) = d

unfoldable pub marked_failed : String → Option Fields → ℕ → Activity → Activity
marked_failed message details now activity = record activity {
  state = failed;
  error = some (message, or_empty details);
  updated_at = now;
}

-- `fail` tests no state.
unfoldable pub failed_with : String → Option Fields → ℕ → Activity → Result Activity
unfolding marked_failed
failed_with message details now activity = ok (marked_failed message details now activity)

unfoldable pub canceled_with : Option String → ℕ → Activity → Result Activity
canceled_with reason now activity =
    check (is_terminal activity.state) invalid_state_transition
      (ok (record activity { state = canceled; status_message = reason; updated_at = now }))

module _ (store : ActivityStore) where
  unfoldable pub start : NewActivity → Exec store.base.State Activity
  unfolding started
  start n = do
    existing ← gets (λ s. store.base.get s n.activity_id)
    raise_if (not (is_none existing)) already_exists
    activity ← lift (init_activity (started n))
    save store.base activity
    pure activity

  unfoldable pub transition :
      String → StateName → Option String → Option Fields → ℕ → Exec store.base.State Activity
  unfolding transitioned
  transition activity_id next_state status_message patch now =
      revise store.base activity_id (transitioned next_state status_message patch now)

  unfoldable pub complete :
      String → Option Fields → Option String → ℕ → Exec store.base.State Activity
  unfolding completed_with
  complete activity_id result_payload result_ref now =
      revise store.base activity_id (completed_with result_payload result_ref now)

  unfoldable pub fail : String → String → Option Fields → ℕ → Exec store.base.State Activity
  unfolding failed_with
  fail activity_id message details now =
      revise store.base activity_id (failed_with message details now)

  unfoldable pub cancel : String → Option String → ℕ → Exec store.base.State Activity
  unfolding canceled_with
  cancel activity_id reason now = revise store.base activity_id (canceled_with reason now)

-- One call of a method that may change an activity.
pub data ActivityCall : Type 0 where
  start_call : NewActivity → ActivityCall
  transition_call : String → StateName → Option String → Option Fields → ℕ → ActivityCall
  complete_call : String → Option Fields → Option String → ℕ → ActivityCall
  fail_call : String → String → Option Fields → ℕ → ActivityCall
  cancel_call : String → Option String → ℕ → ActivityCall

module _ (store : ActivityStore) where
  unfoldable pub run : ActivityCall → Exec store.base.State Activity
  run (start_call n) = start store n
  run (transition_call id next_state status_message patch now) =
      transition store id next_state status_message patch now
  run (complete_call id result_payload result_ref now) =
      complete store id result_payload result_ref now
  run (fail_call id message details now) = fail store id message details now
  run (cancel_call id reason now) = cancel store id reason now

  -- The store after a list of calls; a raise ends only its own call.
  unfoldable pub run_all : List ActivityCall → store.base.State → store.base.State
  unfolding run
  run_all [] s = s
  run_all (c ∷ calls) s = run_all calls (run c s).1
