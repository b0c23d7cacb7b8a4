-- ===== src/Tests/Activities.antt =====
-- Activities in the in-memory store.
use foundation_protocol.Prelude.{
  String, ◌≡◌, refl, ◌⊎◌, true, false, Option, none, some, List, [], ◌∷◌, take, keep, is_none,
  arith, length,
}
use foundation_protocol.Dict
use foundation_protocol.TextSet
use foundation_protocol.TextSet.{contains}
use foundation_protocol.Protocol.Errors.{ok, err, fp_error, not_found}
use foundation_protocol.Protocol.Json.{end}
use foundation_protocol.Protocol.Normalize.{text}
use foundation_protocol.Protocol.Models.Activities.{Activity, working, failed}
use foundation_protocol.Stores.Grouped
use foundation_protocol.Stores.Paging.{list_page, walk}
use foundation_protocol.Stores.Paging.Gaps.{list_page-NoGaps}
use foundation_protocol.Stores.Memory.{in_memory_activities}
use foundation_protocol.Runtime.Revise.{revise}
use foundation_protocol.Runtime.Activities
use foundation_protocol.Runtime.Activities.{
  ActivityCall, start_call, transition_call, complete_call, fail_call, cancel_call, run, run_all,
  fail, is_terminal,
}
use foundation_protocol.Runtime.Activities.Pages
use foundation_protocol.Runtime.Activities.Pages.{gather, passes}
use foundation_protocol.Runtime.Activities.States.{IsStep}
use foundation_protocol.Runtime.Activities.Calls.{
  run-IsStep, run_all-final, run-unchanged, fail_overwrites,
}
use foundation_protocol.Runtime.Activities.Listing.{gather_matches}
use foundation_protocol.Runtime.Activities.InMemory.{list_page-list}
use foundation_protocol.Tests.Samples.{
  new_activity, working_activity, done_activity, activity_states, activity_states-IsIndexed,
}

working_here : Grouped.get activity_states "a1" ≡ some working_activity
unfolding Grouped.get Grouped.put Dict.get Dict.put
working_here = refl

done_here : Grouped.get activity_states "a2" ≡ some done_activity
unfolding Grouped.get Grouped.put Dict.get Dict.put
done_here = refl

run-IsStep_example :
    (new : Activity) × (Grouped.get
        (run in_memory_activities (complete_call "a1" none none 3) activity_states).1
        "a1"
      ≡ some new)
    × ((new ≡ working_activity) ⊎ IsStep working_activity new)
run-IsStep_example =
    run-IsStep in_memory_activities activity_states activity_states-IsIndexed "a1" working_activity
      working_here (complete_call "a1" none none 3)

abbrev calls : List ActivityCall
calls =
    start_call new_activity
    ∷ cancel_call "a2" none 3
    ∷ transition_call "a2" (text "working") none none 4
    ∷ complete_call "a2" (some end) none 5
    ∷ []

run_all-final_example :
    Grouped.get (run_all in_memory_activities calls activity_states) "a2" ≡ some done_activity
run_all-final_example =
    run_all-final in_memory_activities calls activity_states "a2" done_activity
      activity_states-IsIndexed done_here refl refl

raises :
    (run in_memory_activities (cancel_call "a7" none 3) activity_states).0
    ≡ err (fp_error not_found)
unfolding run Activities.cancel revise Grouped.get Grouped.put Dict.get Dict.put
raises = refl

run-unchanged_example :
    (run in_memory_activities (cancel_call "a7" none 3) activity_states).1 ≡ activity_states
run-unchanged_example =
    run-unchanged in_memory_activities activity_states (cancel_call "a7" none 3)
      (fp_error not_found) raises

fail_overwrites_example :
    (new : Activity) × ((fail in_memory_activities "a2" "late" none 9 activity_states).0 ≡ ok new)
    × (Grouped.get (fail in_memory_activities "a2" "late" none 9 activity_states).1 "a2" ≡ some new)
    × (new.state ≡ failed)
fail_overwrites_example =
    fail_overwrites in_memory_activities activity_states "a2" "late" none 9 done_activity
      activity_states-IsIndexed done_here

two_in_group : length (Grouped.group_keys activity_states.groups "s3") ≡ 2
unfolding Grouped.group_keys Grouped.put TextSet.add Dict.get Dict.put
two_in_group = refl

list_page-list_example :
    (shown : List Activity) × (resume : Option String) × (Pages.list_page in_memory_activities 3
        activity_states
        (some "s3")
        (some working)
        none
        1
        none
      ≡ some (ok (shown, resume)))
    × (shown
        ≡ take 1 (Pages.list in_memory_activities activity_states (some "s3") (some working) none))
    × ((is_none resume ≡ false)
        ⊎ (shown ≡ Pages.list in_memory_activities activity_states (some "s3") (some working) none))
list_page-list_example =
    list_page-list activity_states "s3" (some working) none 1 3 activity_states-IsIndexed
      (omega arith) (omega (arith, two_in_group)) refl

abbrev items : Dict.Dict Activity
items = ("a1", working_activity) ∷ ("a2", done_activity) ∷ []

walked :
    walk 3 (list_page items ("a1" ∷ "a2" ∷ []) 1) none
    ≡ some (working_activity ∷ done_activity ∷ [])
unfolding walk list_page
walked = refl

items_there : (k : String) → contains ("a1" ∷ "a2" ∷ []) k ≡ true → Dict.has items k ≡ true
unfolding contains Dict.has Dict.get
items_there k m = ground (arith, m)

gather_matches_example :
    (shown : List Activity) × (resume : Option String) × (gather 3 1
        (passes (some working) none)
        (list_page items ("a1" ∷ "a2" ∷ []) 1)
        []
        none
      ≡ some (ok (shown, resume)))
    × (shown ≡ take 1 (keep (passes (some working) none) (working_activity ∷ done_activity ∷ [])))
    × ((is_none resume ≡ false)
        ⊎ (shown ≡ keep (passes (some working) none) (working_activity ∷ done_activity ∷ [])))
gather_matches_example =
    gather_matches 3 1 (passes (some working) none) (list_page items ("a1" ∷ "a2" ∷ []) 1) none
      (working_activity ∷ done_activity ∷ [])
      (list_page-NoGaps items ("a1" ∷ "a2" ∷ []) items_there 1) (omega arith) walked
