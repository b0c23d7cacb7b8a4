-- ===== src/Stores/Grouped.antt =====
-- `InMemoryGroupedKVStore` of src/fp/stores/base.py: values under keys, with an index of the keys of
-- each group.
pub mod Index
pub mod Queries
use foundation_protocol.Prelude.{
  ℕ, String, Bool, true, false, not, Option, none, some, List, [], ◌==◌, if◌then◌else◌,
}
use foundation_protocol.Dict
use foundation_protocol.Dict.{Dict}
use foundation_protocol.Protocol.Errors.{Result}
use foundation_protocol.TextSet
use foundation_protocol.Stores.Paging

pub record GroupedStore (V : Type 0) : Type 0 where
  pub items : Dict V
  pub groups : Dict (List String)

abbrev pub empty : {V : Type 0} → GroupedStore V
empty = record { items = []; groups = [] }

-- `self._groups.get(group, set())`
unfoldable pub group_keys : Dict (List String) → String → List String
group_keys groups g = elim (Dict.get groups g) [ none ↦ [] | some ks ↦ ks ]

-- `self._groups[group].discard(key)`, where `_groups` is a `defaultdict(set)`
unfoldable pub discard_key : Dict (List String) → String → String → Dict (List String)
unfolding group_keys
discard_key groups g k = Dict.put groups g (TextSet.discard (group_keys groups g) k)

-- `self._groups[group].add(key)`
unfoldable pub add_key : Dict (List String) → String → String → Dict (List String)
unfolding group_keys
add_key groups g k = Dict.put groups g (TextSet.add (group_keys groups g) k)

module _ {V : Type 0} where
  -- the key leaves the group of the value that `put` replaces
  unfoldable pub leave_old_group :
      (V → String) → Dict (List String) → Option V → String → String → Dict (List String)
  unfolding discard_key
  leave_old_group group_fn groups none k g = groups
  leave_old_group group_fn groups (some old) k g =
      if not (group_fn old == g) then discard_key groups (group_fn old) k else groups

  unfoldable pub put : (V → String) → (V → String) → GroupedStore V → V → GroupedStore V
  unfolding leave_old_group add_key
  put key_fn group_fn s v =
      let k = key_fn v in
      let g = group_fn v in
      record {
        items = Dict.put s.items k v;
        groups = add_key (leave_old_group group_fn s.groups (Dict.get s.items k) k g) g k;
      }

  unfoldable pub get : GroupedStore V → String → Option V
  get s k = Dict.get s.items k

  unfoldable pub list : GroupedStore V → List V
  list s = Dict.values s.items

  unfoldable pub list_page : GroupedStore V → ℕ → Option String → Result (List V × Option String)
  list_page s = Paging.list_page s.items (Dict.keys s.items)

  unfoldable pub by_group : GroupedStore V → String → List V
  unfolding group_keys
  by_group s g = Paging.collect s.items (Paging.sort_keys (group_keys s.groups g))

  unfoldable pub by_group_page :
      GroupedStore V → String → ℕ → Option String → Result (List V × Option String)
  unfolding group_keys
  by_group_page s g = Paging.list_page s.items (group_keys s.groups g)

  unfoldable pub remove : (V → String) → GroupedStore V → String → Option V × GroupedStore V
  unfolding discard_key
  remove group_fn s k = elim (Dict.get s.items k) [
    | none ↦ (none, s)
    | some v ↦ (
      some v,
      record { items = Dict.remove s.items k; groups = discard_key s.groups (group_fn v) k },
    )
  ]
