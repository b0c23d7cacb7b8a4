-- ===== src/Protocol/Normalize.antt =====
-- src/fp/protocol/normalize.py: the canonical activity state of a text.
use foundation_protocol.Prelude.{
  String, ℕ, ◌≡◌, refl, Option, none, some, List, [], ◌∷◌, if◌then◌else◌,
}
use foundation_protocol.Prelude.Texts.{codes, strip, lower, same_codes}
use foundation_protocol.Protocol.Errors.{Result, ok, err, fp_error, invalid_argument}
use foundation_protocol.Protocol.Models.Activities.{
  ActivityState, submitted, working, input_required, auth_required, completed, failed, canceled,
  rejected,
}

-- `_STATE_ALIASES`
abbrev pub state_aliases : List (String × ActivityState)
state_aliases =
    ("cancelled", canceled)
    ∷ ("canceled", canceled)
    ∷ ("submitted", submitted)
    ∷ ("working", working)
    ∷ ("input-required", input_required)
    ∷ ("input_required", input_required)
    ∷ ("auth-required", auth_required)
    ∷ ("auth_required", auth_required)
    ∷ ("completed", completed)
    ∷ ("failed", failed)
    ∷ ("rejected", rejected)
    ∷ []

unfoldable pub find_alias : List ℕ → List (String × ActivityState) → Option ActivityState
find_alias cs [] = none
find_alias cs ((name, state) ∷ rest) =
    let later = find_alias cs rest in if same_codes cs (codes name) then some state else later

-- the argument of `normalize_activity_state`: a text, or a state already
pub data StateName : Type 0 where
  text : String → StateName
  state : ActivityState → StateName

abbrev or_unknown : Option ActivityState → Result ActivityState
or_unknown (some s) = ok s
or_unknown none = err (fp_error invalid_argument)

unfoldable pub normalize_activity_state : StateName → Result ActivityState
unfolding find_alias lower strip
normalize_activity_state (state s) = ok s
normalize_activity_state (text t) = or_unknown (find_alias (lower (strip (codes t))) state_aliases)

-- `ActivityState.value`
unfoldable pub state_value : ActivityState → String
state_value submitted = "submitted"
state_value working = "working"
state_value input_required = "input_required"
state_value auth_required = "auth_required"
state_value completed = "completed"
state_value failed = "failed"
state_value canceled = "canceled"
state_value rejected = "rejected"

-- The text that stands for an activity state is normalised to that state.
pub normalize-state_value :
    (s : ActivityState) → normalize_activity_state (text (state_value s)) ≡ ok s
unfolding normalize_activity_state state_value
normalize-state_value submitted = refl
normalize-state_value working = refl
normalize-state_value input_required = refl
normalize-state_value auth_required = refl
normalize-state_value completed = refl
normalize-state_value failed = refl
normalize-state_value canceled = refl
normalize-state_value rejected = refl

british_spelling : normalize_activity_state (text " Cancelled\n") ≡ ok canceled
unfolding normalize_activity_state
british_spelling = refl

unknown_state : normalize_activity_state (text "done") ≡ err (fp_error invalid_argument)
unfolding normalize_activity_state
unknown_state = refl
