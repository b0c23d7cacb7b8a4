-- ===== src/Stores/Grouped/Queries.antt =====
-- What `by_group` and `by_group_page` return, from a store whose index agrees with its values.
use foundation_protocol.Prelude.{
  ℕ, ◌<◌, String, ◌≡◌, refl, ◌↔◌, ◌⊎◌, inl, inr, true, none, some, List, [], ◌∷◌, length, arith,
  ◌==◌, eq_iff, Option-cases, Bool-cases,
}
use foundation_protocol.Dict
use foundation_protocol.Dict.{Dict}
use foundation_protocol.TextSet.{contains}
use foundation_protocol.Stores.Paging.{collect, sort_keys, walk}
use foundation_protocol.Stores.Paging.Sorting.{contains-sort_keys}
use foundation_protocol.Stores.Paging.Cursors.{walk_all}
use foundation_protocol.Stores.Grouped.{GroupedStore, group_keys, get, by_group, by_group_page}
use foundation_protocol.Stores.Grouped.Index.{IsIndexed}

-- The value stands in the list.
abbrev pub In : {A : Type 0} → A → List A → Type 0
In a [] = ⊥
In a (x ∷ xs) = (x ≡ a) ⊎ In a xs

module _ {V : Type 0} (items : Dict V) (k : String) (ks : List String) where
  collect-none : Dict.get items k ≡ none → collect items (k ∷ ks) ≡ collect items ks
  unfolding collect
  collect-none e = ground (arith, e)

  collect-some : (w : V) → Dict.get items k ≡ some w → collect items (k ∷ ks) ≡ w ∷ collect items ks
  unfolding collect
  collect-some w e = ground (arith, e)

module _ {V : Type 0} (key_fn : V → String) (items : Dict V)
    (keyed : (k : String) (v : V) → Dict.get items k ≡ some v → key_fn v ≡ k) where
  In-collect_sound :
      (ks : List String) (v : V)
      → In v (collect items ks)
      → (contains ks (key_fn v) ≡ true) × (Dict.get items (key_fn v) ≡ some v)
  unfolding collect contains
  In-collect_sound [] v m = absurd m
  In-collect_sound (k ∷ ks) v m = elim (Option-cases (Dict.get items k)) [
    | inl e ↦
        let later : In v (collect items ks) = rw (collect-none items k ks e) at m in
        ground (arith, In-collect_sound ks v later)
    | inr (w, e) ↦
        let either : (w ≡ v) ⊎ In v (collect items ks) = rw (collect-some items k ks w e) at m in
        elim either [
          | inl same ↦ ground (arith, keyed k w e, eq_iff k (key_fn v))
          | inr later ↦ ground (arith, In-collect_sound ks v later)
        ]
  ]

  In-collect_complete :
      (ks : List String) (v : V)
      → contains ks (key_fn v) ≡ true
      → Dict.get items (key_fn v) ≡ some v
      → In v (collect items ks)
  unfolding collect contains
  In-collect_complete [] v c e = cc
  In-collect_complete (k ∷ ks) v c e = elim (Bool-cases (k == key_fn v)) [
    | inl p ↦
        let here : Dict.get items k ≡ some v = ground (arith, eq_iff k (key_fn v)) in
        rw (collect-some items k ks v here) (inl refl)
    | inr p ↦
        let later : In v (collect items ks) = In-collect_complete ks v (ground arith) e in
        elim (Option-cases (Dict.get items k)) [
          | inl q ↦ rw (collect-none items k ks q) later
          | inr (w, q) ↦ rw (collect-some items k ks w q) (inr later)
        ]
  ]

module _ {V : Type 0} {key_fn group_fn : V → String} {s : GroupedStore V}
    (h : IsIndexed key_fn group_fn s) (g : String) where
  -- In an indexed store, by_group lists a value exactly if it is stored under its key and belongs
  -- to the group.
  pub In-by_group :
      (v : V) → In v (by_group s g) ↔ ((Dict.get s.items (key_fn v) ≡ some v) × (group_fn v ≡ g))
  unfolding by_group
  In-by_group v = (
    λ m.
        let found =
          In-collect_sound key_fn s.items h.keyed (sort_keys (group_keys s.groups g)) v m in
        ground (
          arith,
          found,
          contains-sort_keys (group_keys s.groups g) (key_fn v),
          h.indexed g (key_fn v),
          eq_iff (group_fn v) g,
        ),
    λ m.
        In-collect_complete key_fn s.items h.keyed (sort_keys (group_keys s.groups g)) v
          (ground (
            arith,
            contains-sort_keys (group_keys s.groups g) (key_fn v),
            h.indexed g (key_fn v),
            eq_iff (group_fn v) g,
          ))
          m.0,
  )

  -- The same by `get`, as a client sees it.
  pub In-by_group_get :
      (v : V) → In v (by_group s g) ↔ ((get s (key_fn v) ≡ some v) × (group_fn v ≡ g))
  unfolding get
  In-by_group_get v = In-by_group v

  -- In an indexed store, following the cursors of by_group_page with a limit above zero and more
  -- fuel than the group has keys ends, and gives what by_group gives at once.
  pub group_pages_all :
      (limit fuel : ℕ)
      → 0 < limit
      → length (group_keys s.groups g) < fuel
      → walk fuel (by_group_page s g limit) none ≡ some (by_group s g)
  unfolding by_group_page by_group
  group_pages_all limit fuel =
      walk_all s.items (group_keys s.groups g) limit fuel (h.groups_distinct g)
