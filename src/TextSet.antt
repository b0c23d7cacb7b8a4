-- ===== src/TextSet.antt =====
-- Python's `set[str]`: a list that is read only by membership, size and sorted traversal.
pub mod Laws
use foundation_protocol.Prelude.{
  ℕ, suc, String, Bool, true, false, ◌||◌, not, ◌≡◌, List, [], ◌∷◌, keep, all_of, ◌==◌,
  if◌then◌else◌,
}

-- x in s
unfoldable pub contains : List String → String → Bool
contains [] x = false
contains (y ∷ s) x = y == x || contains s x

-- len(s)
unfoldable pub card : List String → ℕ
unfolding contains
card [] = 0
card (x ∷ s) = let rest = card s in if contains s x then rest else suc rest

-- s.add(x)
unfoldable pub add : List String → String → List String
unfolding contains
add s x = if contains s x then s else x ∷ s

-- s.discard(x)
unfoldable pub discard : List String → String → List String
discard s x = keep (λ y. not (y == x)) s

-- s | t, s.update(t)
unfoldable pub union : List String → List String → List String
unfolding add
union s [] = s
union s (x ∷ t) = union (add s x) t

-- s - t
unfoldable pub difference : List String → List String → List String
unfolding contains
difference s t = keep (λ y. not (contains t y)) s

-- s <= t
unfoldable pub subset : List String → List String → Bool
unfolding contains
subset s t = all_of (contains t) s

-- No element stands twice.
abbrev pub Distinct : List String → Type 0
Distinct [] = Unit
Distinct (x ∷ s) = (contains s x ≡ false) × Distinct s
