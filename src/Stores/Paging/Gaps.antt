-- ===== src/Stores/Paging/Gaps.antt =====
-- Where every key has a value, a page is empty only if nothing follows it.
use foundation_protocol.Prelude.{
  ℕ, zero, suc, String, ◌≡◌, inl, inr, true, Option, none, some, List, [], ◌∷◌, arith, eq_refl,
  Bool-cases, Option-cases, sym, ap, ◌∙◌,
}
use foundation_protocol.Prelude.TextOrder.{text_lt}
use foundation_protocol.Dict
use foundation_protocol.Dict.{Dict}
use foundation_protocol.TextSet.{contains}
use foundation_protocol.Protocol.Errors.{Result, ok}
use foundation_protocol.Stores.Paging.{sort_keys, past, from_cursor, collect, page_of, list_page}
use foundation_protocol.Stores.Paging.Sorting.{contains-sort_keys}

-- Only the last page may be empty.
abbrev pub NoGaps : {V : Type 0} → (Option String → Result (List V × Option String)) → Type 0
NoGaps ask = (c next : Option String) → ask c ≡ ok ([], next) → next ≡ none

past_in :
    (c : String) (ks rest : List String) (k : String)
    → past c ks ≡ some rest
    → contains rest k ≡ true
    → contains ks k ≡ true
unfolding past contains
past_in c [] rest k h m = cc
past_in c (j ∷ ks) rest k h m = elim (Bool-cases (text_lt c j)) [
  | inl p ↦ ground (arith, p)
  | inr p ↦ ground (arith, p, past_in c ks rest k)
]

parts : {A : Type 0} {a b : A} → ok a ≡ ok b → a ≡ b
parts h = cc

module _ {V : Type 0} (items : Dict V) (ks : List String)
    (there : (k : String) → contains ks k ≡ true → Dict.has items k ≡ true) where
  page_gap :
      (n : ℕ) (rest : List String) (next : Option String)
      → ((k : String) → contains rest k ≡ true → contains ks k ≡ true)
      → page_of items (suc n) (some rest) ≡ ([], next)
      → next ≡ none
  unfolding page_of collect
  page_gap n [] next in_ks h = ground arith
  page_gap n (k ∷ rest) next in_ks h =
      unfold contains Dict.has in ground (arith, there k, in_ks k, eq_refl k)

  pub list_page-NoGaps : (limit : ℕ) → NoGaps (list_page items ks limit)
  unfolding list_page from_cursor
  list_page-NoGaps zero c next h = cc
  list_page-NoGaps (suc n) none next h =
      page_gap n (sort_keys ks) next (λ k m. ground (arith, contains-sort_keys ks k)) (parts h)
  list_page-NoGaps (suc n) (some c) next h = elim (Option-cases (past c (sort_keys ks))) [
    | inl p ↦ unfold page_of in cc (rw (p, page_of) at h)
    | inr (rest, p) ↦
        let fits : page_of items (suc n) (some rest) ≡ ([], next) =
          ap (page_of items (suc n)) (sym p) ∙ parts h in
        page_gap n rest next
          (λ k m. ground (arith, contains-sort_keys ks k, past_in c (sort_keys ks) rest k p)) fits
  ]
