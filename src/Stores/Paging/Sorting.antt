-- ===== src/Stores/Paging/Sorting.antt =====
-- `sorted` gives the same keys in strictly rising order, where no key stands twice.
use foundation_protocol.Prelude.{
  String, ◌≡◌, refl, ◌∙◌, false, ◌||◌, List, [], ◌∷◌, arith, ◌==◌, eq_iff, All, length, suc,
  Bool-cases, inl, inr,
}
use foundation_protocol.Prelude.TextOrder.{text_lt, TextLt, TextLt-trans, TextLt-total}
use foundation_protocol.TextSet.{contains, Distinct}
use foundation_protocol.Stores.Paging.{insert_key, sort_keys}

abbrev pub IsSorted : List String → Type 0
IsSorted [] = Unit
IsSorted (k ∷ ks) = All (TextLt k) ks × IsSorted ks

contains-insert_key :
    (k : String) (ks : List String) (j : String)
    → contains (insert_key k ks) j ≡ (k == j || contains ks j)
unfolding insert_key contains
contains-insert_key k [] j = refl
contains-insert_key k (i ∷ ks) j = ground (arith, contains-insert_key k ks j)

pub contains-sort_keys : (ks : List String) (j : String) → contains (sort_keys ks) j ≡ contains ks j
unfolding sort_keys contains
contains-sort_keys [] j = refl
contains-sort_keys (k ∷ ks) j =
    ground (arith, contains-insert_key k (sort_keys ks) j, contains-sort_keys ks j)

length-insert_key : (k : String) (ks : List String) → length (insert_key k ks) ≡ suc (length ks)
unfolding insert_key
length-insert_key k [] = refl
length-insert_key k (i ∷ ks) = ground (arith, length-insert_key k ks)

pub length-sort_keys : (ks : List String) → length (sort_keys ks) ≡ length ks
unfolding sort_keys
length-sort_keys [] = refl
length-sort_keys (k ∷ ks) = omega (arith, length-insert_key k (sort_keys ks), length-sort_keys ks)

All-insert_key :
    (i k : String) (ks : List String)
    → TextLt i k
    → All (TextLt i) ks
    → All (TextLt i) (insert_key k ks)
unfolding insert_key
All-insert_key i k [] h a = (h, tt)
All-insert_key i k (j ∷ ks) h a = elim (Bool-cases (text_lt j k)) [
  | inl p ↦ rw p (a.0, All-insert_key i k ks h a.1)
  | inr p ↦ rw p (h, a)
]

All-trans : (k j : String) (ks : List String) → TextLt k j → All (TextLt j) ks → All (TextLt k) ks
All-trans k j [] h a = tt
All-trans k j (i ∷ ks) h a = (TextLt-trans k j i h a.0, All-trans k j ks h a.1)

insert_key-IsSorted :
    (k : String) (ks : List String)
    → contains ks k ≡ false
    → IsSorted ks
    → IsSorted (insert_key k ks)
unfolding insert_key contains
insert_key-IsSorted k [] new s = (tt, tt)
insert_key-IsSorted k (j ∷ ks) new s = elim (Bool-cases (text_lt j k)) [
  | inl p ↦ rw p (All-insert_key j k ks p s.0, insert_key-IsSorted k ks (ground arith) s.1)
  | inr p ↦
      let h : TextLt k j = TextLt-total j k p (ground (arith, eq_iff j k)) in
      rw p ((h, All-trans k j ks h s.0), s)
]

pub sort_keys-IsSorted : (ks : List String) → Distinct ks → IsSorted (sort_keys ks)
unfolding sort_keys
sort_keys-IsSorted [] d = tt
sort_keys-IsSorted (k ∷ ks) d =
    insert_key-IsSorted k (sort_keys ks) (contains-sort_keys ks k ∙ d.0) (sort_keys-IsSorted ks d.1)
