-- ===== src/Stores/Paging/Cursors.antt =====
-- A client that follows the cursors from the first page is given every value once, in the order
-- of the keys, and then no further cursor.
use foundation_protocol.Prelude.{
  ℕ, zero, suc, ◌-◌, ◌<◌, ◌≤◌, String, ◌≡◌, refl, sym, ◌∙◌, ap, Option, none, some, List, [], ◌∷◌,
  ◌++◌, arith, All, length, take, drop, take_all, subst, length-drop, take-take-suc,
  length-take_full, take-append-drop,
}
use native.Mathlib.Decide.{dec_lt}
use mathlib.Core.List.{append_assoc}
use foundation_protocol.Prelude.TextOrder.{TextLt, TextLt-trans, TextLt-irrefl}
use foundation_protocol.Dict.{Dict}
use foundation_protocol.TextSet.{Distinct}
use foundation_protocol.Stores.Paging.{
  sort_keys, past, from_cursor, get_elem?, collect, page_of, list_page, walk,
}
use foundation_protocol.Stores.Paging.Sorting.{IsSorted, sort_keys-IsSorted, length-sort_keys}

collect-append {ℓ} :
    {V : Type ℓ} (items : Dict V) (ks js : List String)
    → collect items (ks ++ js) ≡ collect items ks ++ collect items js
unfolding collect
collect-append items [] js = refl
collect-append items (k ∷ ks) js = ground (arith, collect-append items ks js)

All-middle :
    (P : String → Type 0) (before : List String) (k : String) (behind : List String)
    → All P (before ++ k ∷ behind)
    → P k
All-middle P [] k behind a = a.0
All-middle P (i ∷ before) k behind a = All-middle P before k behind a.1

-- A key of a sorted list finds the keys behind it.
past-middle :
    (before : List String) (k j : String) (behind : List String)
    → IsSorted (before ++ k ∷ j ∷ behind)
    → past k (before ++ k ∷ j ∷ behind) ≡ some (j ∷ behind)
unfolding past
past-middle [] k j behind s = ground (arith, TextLt-irrefl k)
past-middle (i ∷ before) k j behind s =
    let h : TextLt i k = All-middle (TextLt i) before k (j ∷ behind) s.0 in
    ground (arith, TextLt-trans i k i, TextLt-irrefl i, past-middle before k j behind s.1)

-- Where `n` keys are not all, the last of the first `n` is the cursor of the rest.
record Split (rest : List String) (n : ℕ) : Type 0 where
  first_part : List String
  key : String
  head : String
  tail : List String
  shape : rest ≡ first_part ++ key ∷ head ∷ tail
  dropped : drop (suc n) rest ≡ head ∷ tail
  found : get_elem? (take (suc (suc n)) rest) n ≡ some key

Split-at : (n : ℕ) (rest : List String) → suc n < length rest → Split rest n
Split-at n [] h = absurd (omega arith)
Split-at n (k ∷ []) h = absurd (omega arith)
Split-at zero (k ∷ j ∷ rest) h = record {
  first_part = [];
  key = k;
  head = j;
  tail = rest;
  shape = refl;
  dropped = refl;
  found = refl;
}
Split-at (suc n) (k ∷ j ∷ rest) h =
    let r = Split-at n (j ∷ rest) (omega arith) in
    record {
      first_part = k ∷ r.first_part;
      key = r.key;
      head = r.head;
      tail = r.tail;
      shape = ap (◌∷◌ k) r.shape;
      dropped = r.dropped;
      found = r.found;
    }

module _ {ℓ} {V : Type ℓ} (items : Dict V) (n : ℕ) (rest : List String) where
  page_of-last :
      length rest ≤ suc n → page_of items (suc n) (some rest) ≡ (collect items rest, none)
  unfolding page_of
  page_of-last h =
      rw (take_all (suc (suc n)) rest (omega arith), take_all (suc n) rest h) (ground arith)

  page_of-more :
      suc n < length rest
      → (r : Split rest n)
      → page_of items (suc n) (some rest) ≡ (collect items (take (suc n) rest), some r.key)
  unfolding page_of
  page_of-more h r =
      let e : suc n - 1 ≡ n = omega arith in
      rw (take-take-suc (suc n) rest, length-take_full (suc (suc n)) rest h, e, r.found)
        (ground arith)

-- The keys up to and with the cursor, and those behind it.
module _ (before : List String) {n : ℕ} {rest : List String} (r : Split rest n) where
  abbrev done : List String
  done = (before ++ r.first_part) ++ r.key ∷ []

  around : before ++ rest ≡ (before ++ r.first_part) ++ r.key ∷ r.head ∷ r.tail
  around = ap (◌++◌ before) r.shape ∙ sym (append_assoc before r.first_part _)

  behind_done : before ++ rest ≡ done ++ r.head ∷ r.tail
  behind_done = around ∙ sym (append_assoc (before ++ r.first_part) (r.key ∷ []) _)

  past-split : IsSorted (before ++ rest) → past r.key (before ++ rest) ≡ some (r.head ∷ r.tail)
  past-split s =
      ap (past r.key) around
      ∙ past-middle (before ++ r.first_part) r.key r.head r.tail (subst IsSorted around s)

collect-Split {ℓ} :
    {V : Type ℓ} (items : Dict V) (n : ℕ) (rest : List String) (r : Split rest n)
    → collect items (take (suc n) rest) ++ collect items (r.head ∷ r.tail) ≡ collect items rest
collect-Split items n rest r =
    ap (λ js. collect items (take (suc n) rest) ++ collect items js) (sym r.dropped)
    ∙ sym (collect-append items (take (suc n) rest) (drop (suc n) rest))
    ∙ ap (collect items) (take-append-drop (suc n) rest)

module _ {ℓ} {V : Type ℓ} (items : Dict V) (ks : List String) (n : ℕ) where
  walk_rest :
      (fuel : ℕ) (before rest : List String) (cursor : Option String)
      → length rest < fuel
      → IsSorted (before ++ rest)
      → sort_keys ks ≡ before ++ rest
      → from_cursor cursor (sort_keys ks) ≡ some rest
      → walk fuel (list_page items ks (suc n)) cursor ≡ some (collect items rest)
  unfolding walk list_page
  walk_rest zero before rest cursor h s e c = elim h [ ]
  walk_rest (suc fuel) before rest cursor h s e c = elim (dec_lt (suc n) (length rest)) [
    | no p ↦ ground (arith, c, page_of-last items n rest (omega arith))
    | yes p ↦
        let r = Split-at n rest p in
        let more : walk fuel (list_page items ks (suc n)) (some r.key)
            ≡ some (collect items (r.head ∷ r.tail)) =
          walk_rest fuel (done before r) (r.head ∷ r.tail) (some r.key)
            (omega (arith, ap length r.dropped, length-drop (suc n) rest))
            (subst IsSorted (behind_done before r) s) (e ∙ behind_done before r)
            (unfold from_cursor in (ap (past r.key) e ∙ past-split before r s)) in
        ground (arith, c, page_of-more items n rest p r, more, collect-Split items n rest r)
  ]

-- With a limit above zero and more fuel than keys, following the cursors from the start gives the
-- values under all the keys, in the sorted order of the keys, each once.
pub walk_all {ℓ} :
    {V : Type ℓ} (items : Dict V) (ks : List String) (limit fuel : ℕ)
    → Distinct ks
    → 0 < limit
    → length ks < fuel
    → walk fuel (list_page items ks limit) none ≡ some (collect items (sort_keys ks))
unfolding from_cursor
walk_all items ks zero fuel d l f = elim l [ ]
walk_all items ks (suc n) fuel d l f =
    walk_rest items ks n fuel [] (sort_keys ks) none (omega (arith, length-sort_keys ks))
      (sort_keys-IsSorted ks d) refl refl
