-- ===== src/Tests/Stores.antt =====
-- The in-memory stores on small contents.
use foundation_protocol.Prelude.{◌≡◌, refl, ◌↔◌, none, some, [], ◌∷◌, length, arith}
use foundation_protocol.Dict
use foundation_protocol.TextSet
use foundation_protocol.Stores.Kv
use foundation_protocol.Stores.Kv.Laws.{pages_all}
use foundation_protocol.Stores.Grouped
use foundation_protocol.Stores.Grouped.Index.{IsIndexed, put-IsIndexed, remove-IsIndexed}
use foundation_protocol.Stores.Grouped.Queries.{In, In-by_group, group_pages_all}
use foundation_protocol.Stores.Paging.{walk, collect, sort_keys}
use foundation_protocol.Stores.Events.{from_event}
use foundation_protocol.Stores.Events.Replay.{from_event-middle}
use foundation_protocol.Tests.Samples.{
  session_states, session_states-IsKeyed, done_activity, activity_states, activity_states-IsIndexed,
  event,
}

two_sessions : length (Dict.keys session_states.items) ≡ 2
unfolding Kv.put Dict.put
two_sessions = refl

pages_all_example :
    walk 3 (Kv.list_page session_states 1) none
    ≡ some (collect session_states.items (sort_keys (Dict.keys session_states.items)))
pages_all_example =
    pages_all (λ s. s.session_id) session_states 1 3 session_states-IsKeyed (omega arith)
      (omega (arith, two_sessions))

two_activities : length (Grouped.group_keys activity_states.groups "s3") ≡ 2
unfolding Grouped.group_keys Grouped.put TextSet.add Dict.get Dict.put
two_activities = refl

In-by_group_example : In done_activity (Grouped.by_group activity_states "s3") ↔ (
    (Dict.get activity_states.items "a2" ≡ some done_activity) × (done_activity.session_id ≡ "s3"))
In-by_group_example = In-by_group activity_states-IsIndexed "s3" done_activity

put-IsIndexed_example :
    IsIndexed
      (λ a. a.activity_id)
      (λ a. a.session_id)
      (Grouped.put
        (λ a. a.activity_id)
        (λ a. a.session_id)
        activity_states
        (record done_activity { session_id = "s4" }))
put-IsIndexed_example =
    put-IsIndexed (record done_activity { session_id = "s4" }) activity_states-IsIndexed

remove-IsIndexed_example :
    IsIndexed
      (λ a. a.activity_id)
      (λ a. a.session_id)
      (Grouped.remove (λ a. a.session_id) activity_states "a2").1
remove-IsIndexed_example = remove-IsIndexed "a2" activity_states-IsIndexed

group_pages_all_example :
    walk 3 (Grouped.by_group_page activity_states "s3" 1) none
    ≡ some (Grouped.by_group activity_states "s3")
group_pages_all_example =
    group_pages_all activity_states-IsIndexed "s3" 1 3 (omega arith) (omega (arith, two_activities))

from_event-middle_example :
    from_event (some "e2") (event "e1" ∷ event "e2" ∷ event "e3" ∷ []) ≡ event "e3" ∷ []
unfolding TextSet.contains
from_event-middle_example =
    from_event-middle (event "e1" ∷ []) (event "e2") (event "e3" ∷ []) (refl, (refl, (refl, tt)))
      refl
