-- ===== src/Runtime/Activities/InMemory.antt =====
-- The filtered listing of the engine over `InMemoryActivityStore`.
use foundation_protocol.Prelude.{
  ℕ, zero, suc, ◌<◌, String, ◌≡◌, ◌⊎◌, false, ◌&&◌, Option, none, some, List, arith, take, length,
  is_none,
}
use foundation_protocol.Dict
use foundation_protocol.Protocol.Errors.{ok}
use foundation_protocol.Protocol.Models.Activities.{Activity, ActivityState}
use foundation_protocol.Stores.Paging.Gaps.{NoGaps, list_page-NoGaps}
use foundation_protocol.Stores.Grouped.{GroupedStore, group_keys, by_group, by_group_page}
use foundation_protocol.Stores.Grouped.Index.{IsIndexed}
use foundation_protocol.Stores.Grouped.Queries.{group_pages_all}
use foundation_protocol.Stores.Memory.{in_memory_activities}
use foundation_protocol.Runtime.Activities.Pages.{passes, list, list_page}
use foundation_protocol.Runtime.Activities.Listing.{gather_matches}

module _ {V : Type 0} {key_fn group_fn : V → String} {s : GroupedStore V}
    (h : IsIndexed key_fn group_fn s) (g : String) where
  by_group_page-NoGaps : (limit : ℕ) → NoGaps (by_group_page s g limit)
  unfolding by_group_page
  by_group_page-NoGaps limit =
      list_page-NoGaps s.items (group_keys s.groups g)
        (λ k m. unfold Dict.has in ground (arith, h.indexed g k)) limit

-- In an indexed in-memory store, with a filter, a limit above zero and more fuel than the session
-- has activities, the first filtered page of a session is returned; it holds the first `limit`
-- activities that list returns for the same filters, and all of them unless it gives a cursor.
pub list_page-list :
    (s : GroupedStore Activity) (session_id : String) (state : Option ActivityState)
    (owner : Option String) (limit fuel : ℕ)
    → IsIndexed (λ a. a.activity_id) (λ a. a.session_id) s
    → 0 < limit
    → length (group_keys s.groups session_id) < fuel
    → (is_none state && is_none owner) ≡ false
    → (shown : List Activity) × (resume : Option String) × (list_page in_memory_activities fuel s
          (some session_id)
          state
          owner
          limit
          none
        ≡ some (ok (shown, resume)))
      × (shown ≡ take limit (list in_memory_activities s (some session_id) state owner))
      × ((is_none resume ≡ false)
          ⊎ (shown ≡ list in_memory_activities s (some session_id) state owner))
unfolding list_page list
list_page-list s g state owner zero fuel h above enough some_filter = elim above [ ]
list_page-list s g state owner (suc n) fuel h above enough some_filter =
    let found =
      gather_matches fuel (suc n) (passes state owner) (by_group_page s g (suc n)) none
        (by_group s g) (by_group_page-NoGaps h g (suc n)) above
        (group_pages_all h g (suc n) fuel above enough) in
    rw some_filter found
