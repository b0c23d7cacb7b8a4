-- ===== src/Stores/Paging.antt =====
-- The cursor paging that the stores of src/fp/stores/base.py share: the keys in order, the place of a
-- cursor among them, and one page. A limit is a natural number; zero stands for `limit <= 0`.
pub mod Sorting
pub mod Cursors
pub mod Gaps
use foundation_protocol.Prelude.{
  ℕ, zero, suc, ◌+◌, ◌-◌, String, Bool, true, false, Option, none, some, List, [], ◌∷◌, ◌++◌,
  length, take, ltb, if◌then◌else◌,
}
use foundation_protocol.Prelude.TextOrder.{text_lt}
use mathlib.Core.Option
use foundation_protocol.Dict
use foundation_protocol.Dict.{Dict}
use foundation_protocol.Protocol.Errors.{Result, ok, err, value_error}

-- `sorted(keys, key=str)`
insert_key : String → List String → List String
insert_key k [] = k ∷ []
insert_key k (j ∷ ks) = let rest = insert_key k ks in if text_lt j k then j ∷ rest else k ∷ j ∷ ks

unfoldable pub sort_keys : List String → List String
unfolding insert_key
sort_keys [] = []
sort_keys (k ∷ ks) = insert_key k (sort_keys ks)

-- The keys from the first one past the text; none where the loop ends without a `break`.
unfoldable pub past : String → List String → Option (List String)
past c [] = none
past c (k ∷ ks) = let later = past c ks in if text_lt c k then some (k ∷ ks) else later

-- `keys[start:]`
unfoldable pub from_cursor : Option String → List String → Option (List String)
unfolding past
from_cursor none ks = some ks
from_cursor (some c) ks = past c ks

-- `xs[i]`, on an index that may be out of range
abbrev pub get_elem? : List String → ℕ → Option String
get_elem? [] i = none
get_elem? (x ∷ xs) zero = some x
get_elem? (x ∷ xs) (suc i) = get_elem? xs i

-- `[items[key] for key in keys if key in items]`
unfoldable pub collect {ℓ} : {V : Type ℓ} → Dict V → List String → List V
unfolding Dict.get
collect items [] = []
collect items (k ∷ ks) =
    let rest = collect items ks in elim (Dict.get items k) [ none ↦ rest | some v ↦ v ∷ rest ]

-- The rest of `list_page` once the keys and the start are known.
unfoldable pub page_of {ℓ} :
    {V : Type ℓ} → Dict V → ℕ → Option (List String) → List V × Option String
unfolding collect
page_of items limit none = ([], none)
page_of items limit (some rest) =
    let page_keys = take (suc limit) rest in
    (
      collect items (take limit page_keys),
      if ltb limit (length page_keys) then get_elem? page_keys (limit - 1) else none,
    )

-- `list_page` over the given keys of a dictionary.
unfoldable pub list_page {ℓ} :
    {V : Type ℓ} → Dict V → List String → ℕ → Option String → Result (List V × Option String)
unfolding page_of from_cursor sort_keys
list_page items ks zero cursor = err value_error
list_page items ks (suc n) cursor = ok (page_of items (suc n) (from_cursor cursor (sort_keys ks)))

-- What a client does: it asks for a page, and for the next one at the cursor that it is given.
-- `none` means that a page raised, or that the fuel ran out before the last page.
unfoldable pub walk {ℓ} :
    {V : Type ℓ}
    → ℕ
    → (Option String → Result (List V × Option String))
    → Option String
    → Option (List V)
walk zero ask cursor = none
walk (suc fuel) ask cursor = elim (ask cursor) [
  | err e ↦ none
  | ok (values, next) ↦ elim next [
    | none ↦ some values
    | some c ↦ Option.map (λ more. values ++ more) (walk fuel ask (some c))
  ]
]
