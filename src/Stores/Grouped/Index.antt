-- ===== src/Stores/Grouped/Index.antt =====
-- The index of the groups agrees with the values: a key is in the index of a group exactly if a
-- value of that group is stored under it. `put` and `remove` keep it so.
use foundation_protocol.Prelude.{
  String, ◌≡◌, refl, Bool, false, ◌&&◌, ◌||◌, not, Option, none, some, List, arith, ◌==◌, eq_iff,
  Bool-cases, Option-cases, inl, inr, if◌then◌else◌,
}
use foundation_protocol.Dict
use foundation_protocol.Dict.{Dict}
use foundation_protocol.TextSet
use foundation_protocol.TextSet.{contains, Distinct}
use foundation_protocol.Stores.Grouped.{
  GroupedStore, empty, group_keys, discard_key, add_key, leave_old_group, put, get, remove,
}

contains-discard_key :
    (groups : Dict (List String)) (g k h j : String)
    → contains (group_keys (discard_key groups g k) h) j
      ≡ (contains (group_keys groups h) j && not (g == h && k == j))
unfolding group_keys discard_key contains
contains-discard_key groups g k h j = ground (
  arith,
  Dict.Laws.get-put groups g h (TextSet.discard (group_keys groups g) k),
  eq_iff g h,
  TextSet.Laws.contains-discard (group_keys groups g) k j,
  eq_iff k j,
  eq_iff j k,
)

contains-add_key :
    (groups : Dict (List String)) (g k h j : String)
    → contains (group_keys (add_key groups g k) h) j
      ≡ ((g == h && k == j) || contains (group_keys groups h) j)
unfolding group_keys add_key contains
contains-add_key groups g k h j = ground (
  arith,
  Dict.Laws.get-put groups g h (TextSet.add (group_keys groups g) k),
  eq_iff g h,
  TextSet.Laws.contains-add (group_keys groups g) k j,
)

group_keys-put :
    (groups : Dict (List String)) (g h : String) (ks : List String)
    → group_keys (Dict.put groups g ks) h ≡ (if g == h then ks else group_keys groups h)
unfolding group_keys
group_keys-put groups g h ks = ground (arith, Dict.Laws.get-put groups g h ks)

-- Every group of the index lists each key once.
abbrev GroupsDistinct : Dict (List String) → Type 0
GroupsDistinct groups = (g : String) → Distinct (group_keys groups g)

put-GroupsDistinct :
    (groups : Dict (List String)) (g : String) (ks : List String)
    → Distinct ks
    → GroupsDistinct groups
    → GroupsDistinct (Dict.put groups g ks)
put-GroupsDistinct groups g ks d all h =
    rw (group_keys-put groups g h ks)
      (elim (Bool-cases (g == h)) [ inl p ↦ rw p d | inr p ↦ rw p (all h) ])

discard_key-GroupsDistinct :
    (groups : Dict (List String)) (g k : String)
    → GroupsDistinct groups
    → GroupsDistinct (discard_key groups g k)
unfolding discard_key
discard_key-GroupsDistinct groups g k all =
    put-GroupsDistinct groups g _ (TextSet.Laws.discard-Distinct (group_keys groups g) k (all g))
      all

add_key-GroupsDistinct :
    (groups : Dict (List String)) (g k : String)
    → GroupsDistinct groups
    → GroupsDistinct (add_key groups g k)
unfolding add_key
add_key-GroupsDistinct groups g k all =
    put-GroupsDistinct groups g _ (TextSet.Laws.add-Distinct (group_keys groups g) k (all g)) all

module _ {V : Type 0} where
  leave_old_group-GroupsDistinct :
      (group_fn : V → String) (groups : Dict (List String)) (old : Option V) (k g : String)
      → GroupsDistinct groups
      → GroupsDistinct (leave_old_group group_fn groups old k g)
  unfolding leave_old_group
  leave_old_group-GroupsDistinct group_fn groups none k g all = all
  leave_old_group-GroupsDistinct group_fn groups (some old) k g all =
      elim (Bool-cases (group_fn old == g)) [
        | inl p ↦ rw p all
        | inr p ↦ rw p (discard_key-GroupsDistinct groups (group_fn old) k all)
      ]

  -- the value stands in the group
  abbrev pub is_in : (V → String) → Option V → String → Bool
  is_in group_fn none g = false
  is_in group_fn (some v) g = group_fn v == g

  pub record IsIndexed (key_fn group_fn : V → String) (s : GroupedStore V) : Type 0 where
    pub distinct : Distinct (Dict.keys s.items)
    pub groups_distinct : (g : String) → Distinct (group_keys s.groups g)
    pub keyed : (k : String) (v : V) → Dict.get s.items k ≡ some v → key_fn v ≡ k
    pub indexed :
        (g k : String) → contains (group_keys s.groups g) k ≡ is_in group_fn (Dict.get s.items k) g

  pub IsIndexed-empty : (key_fn group_fn : V → String) → IsIndexed key_fn group_fn (empty {V = V})
  unfolding group_keys contains Dict.get
  IsIndexed-empty key_fn group_fn = record {
    distinct = tt;
    groups_distinct = λ g. tt;
    keyed = λ k v e. cc;
    indexed = λ g k. refl;
  }

  contains-leave_old_group :
      (group_fn : V → String) (groups : Dict (List String)) (old : Option V) (k g h j : String)
      → contains (group_keys (leave_old_group group_fn groups old k g) h) j
        ≡ (contains (group_keys groups h) j && not (is_in group_fn old h && not (g == h) && k == j))
  unfolding leave_old_group
  contains-leave_old_group group_fn groups none k g h j = ground arith
  contains-leave_old_group group_fn groups (some old) k g h j = ground (
    arith,
    contains-discard_key groups (group_fn old) k h j,
    eq_iff (group_fn old) g,
    eq_iff g h,
    eq_iff (group_fn old) h,
  )

  put-indexed :
      (key_fn group_fn : V → String) (s : GroupedStore V) (v : V)
      → IsIndexed key_fn group_fn s
      → (g k : String)
      → contains (group_keys (put key_fn group_fn s v).groups g) k
        ≡ is_in group_fn (Dict.get (put key_fn group_fn s v).items k) g
  unfolding put
  put-indexed key_fn group_fn s v h g k = ground (
    arith,
    contains-add_key
        (leave_old_group group_fn s.groups (Dict.get s.items (key_fn v)) (key_fn v) (group_fn v))
        (group_fn v) (key_fn v) g k,
    contains-leave_old_group group_fn s.groups (Dict.get s.items (key_fn v)) (key_fn v) (group_fn v)
        g k,
    Dict.Laws.get-put s.items (key_fn v) k v,
    h.indexed g k,
    eq_iff (group_fn v) g,
    eq_iff (key_fn v) k,
  )

  -- If the groups of a store index exactly its values, they still do after put, also where the
  -- value leaves its old group.
  pub put-IsIndexed :
      {key_fn group_fn : V → String} {s : GroupedStore V} (v : V)
      → IsIndexed key_fn group_fn s
      → IsIndexed key_fn group_fn (put key_fn group_fn s v)
  unfolding put
  put-IsIndexed {key_fn} {group_fn} {s} v h = record {
    distinct = Dict.Laws.put-Distinct s.items (key_fn v) v h.distinct;
    groups_distinct =
        add_key-GroupsDistinct _ (group_fn v) (key_fn v)
          (leave_old_group-GroupsDistinct group_fn s.groups _ _ _ h.groups_distinct);
    keyed = λ k w e.
        ground (arith, Dict.Laws.get-put s.items (key_fn v) k v, eq_iff (key_fn v) k, h.keyed k w);
    indexed = put-indexed key_fn group_fn s v h;
  }

  remove-some :
      (key_fn group_fn : V → String) (s : GroupedStore V) (k : String) (v : V)
      → Dict.get s.items k ≡ some v
      → IsIndexed key_fn group_fn s
      → IsIndexed key_fn group_fn
          (record { items = Dict.remove s.items k; groups = discard_key s.groups (group_fn v) k })
  remove-some key_fn group_fn s k v e h = record {
    distinct = Dict.Laws.remove-Distinct s.items k h.distinct;
    groups_distinct = discard_key-GroupsDistinct s.groups (group_fn v) k h.groups_distinct;
    keyed = λ j w p. ground (arith, Dict.Laws.get-remove s.items k j, h.keyed j w);
    indexed = λ g j. ground (
      arith,
      Dict.Laws.get-remove s.items k j,
      contains-discard_key s.groups (group_fn v) k g j,
      h.indexed g j,
      eq_iff k j,
      eq_iff (group_fn v) g,
    );
  }

  -- If the groups of a store index exactly its values, they still do after remove, whether the key
  -- is there or not.
  pub remove-IsIndexed :
      {key_fn group_fn : V → String} {s : GroupedStore V} (k : String)
      → IsIndexed key_fn group_fn s
      → IsIndexed key_fn group_fn (remove group_fn s k).1
  unfolding remove
  remove-IsIndexed {key_fn} {group_fn} {s} k h = elim (Option-cases (Dict.get s.items k)) [
    | inl p ↦ rw (p, remove) h
    | inr (v, p) ↦ rw (p, remove) (remove-some key_fn group_fn s k v p h)
  ]

  pub get-put :
      (key_fn group_fn : V → String) (s : GroupedStore V) (v : V) (k : String)
      → get (put key_fn group_fn s v) k ≡ (if key_fn v == k then some v else get s k)
  unfolding get put
  get-put key_fn group_fn s v k = Dict.Laws.get-put s.items (key_fn v) k v

  pub get-keyed_indexed :
      {key_fn group_fn : V → String} {s : GroupedStore V}
      → IsIndexed key_fn group_fn s
      → (k : String) (v : V) → get s k ≡ some v
      → key_fn v ≡ k
  unfolding get
  get-keyed_indexed h = h.keyed
