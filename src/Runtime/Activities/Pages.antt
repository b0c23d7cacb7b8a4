-- ===== src/Runtime/Activities/Pages.antt =====
-- The listings of src/fp/runtime/activity_engine.py, and how the in-memory store answers them.
use foundation_protocol.Prelude.{
  ℕ, zero, suc, String, Bool, true, false, not, ◌&&◌, Option, none, some, List, [], ◌∷◌, ◌++◌, keep,
  length, leb, is_none, is_empty, ◌==◌, if◌then◌else◌,
}
use foundation_protocol.Protocol.Errors.{Result, ok, err, fp_error, invalid_argument}
use foundation_protocol.Protocol.Models.Activities.{ActivityState, Activity}
use foundation_protocol.Stores.Interfaces.{ActivityStore}
use foundation_protocol.Runtime.Activities.{same_state}

-- The filters of `list` and `list_page`.
unfoldable pub passes : Option ActivityState → Option String → Activity → Bool
passes state owner activity =
    elim state [ none ↦ true | some s ↦ same_state activity.state s ]
    && elim owner [ none ↦ true | some o ↦ activity.owner_entity_id == o ]

-- One chunk of the loop of `list_page`: the page is full, or the loop goes on with what it has.
pub data Scan : Type 0 where
  full : List Activity → Option String → Scan
  more : List Activity → Scan

abbrev pub resume_at : List Activity → Option String → Activity → Option String
resume_at [] none last = none
resume_at [] (some _) last = some last.activity_id
resume_at (_ ∷ _) next last = some last.activity_id

unfoldable pub scan : ℕ → (Activity → Bool) → Option String → List Activity → List Activity → Scan
scan limit pass next [] page = more page
scan limit pass next (a ∷ chunk) page =
    let skipped = scan limit pass next chunk page in
    let page' = page ++ a ∷ [] in
    let taken = scan limit pass next chunk page' in
    if not (pass a)
    then skipped
    else if leb limit (length page')
    then full page' (resume_at chunk next a)
    else taken

-- The loop of `list_page` over the chunks that `ask` gives. An answer `none` means that the fuel
-- ran out.
unfoldable pub gather :
    ℕ
    → ℕ
    → (Activity → Bool)
    → (Option String → Result (List Activity × Option String))
    → List Activity
    → Option String
    → Option (Result (List Activity × Option String))
unfolding scan
gather zero limit pass ask page cursor = none
gather (suc fuel) limit pass ask page cursor = elim (ask cursor) [
  | err e ↦ some (err e)
  | ok (chunk, next) ↦ elim (is_empty chunk) [
    | true ↦ some (ok (page, none))
    | false ↦ elim (scan limit pass next chunk page) [
      | full page' resume ↦ some (ok (page', resume))
      | more page' ↦ elim next [
        | none ↦ some (ok (page', none))
        | some c ↦ gather fuel limit pass ask page' (some c)
      ]
    ]
  ]
]

module _ (store : ActivityStore) where
  -- `self._store.list(session_id=session_id)`, as src/fp/stores/memory.py dispatches it
  unfoldable pub stored : store.base.State → Option String → List Activity
  stored s none = store.base.list s
  stored s (some session_id) = store.by_group s session_id

  unfoldable pub stored_page :
      store.base.State → Option String → ℕ → Option String → Result (List Activity × Option String)
  stored_page s none = store.base.list_page s
  stored_page s (some session_id) = store.by_group_page s session_id

  unfoldable pub list :
      store.base.State → Option String → Option ActivityState → Option String → List Activity
  unfolding stored passes
  list s session_id state owner = keep (passes state owner) (stored s session_id)

  unfoldable pub list_page :
      ℕ
      → store.base.State
      → Option String
      → Option ActivityState
      → Option String
      → ℕ
      → Option String
      → Option (Result (List Activity × Option String))
  unfolding stored_page passes gather
  list_page fuel s session_id state owner zero cursor = some (err (fp_error invalid_argument))
  list_page fuel s session_id state owner (suc n) cursor =
      if is_none state && is_none owner
      then some (stored_page s session_id (suc n) cursor)
      else gather fuel (suc n) (passes state owner) (stored_page s session_id (suc n)) [] cursor
