-- ===== src/TextSet/Laws.antt =====
-- Membership in each set that an operation builds.
use foundation_protocol.Prelude.{
  String, Bool, ◌||◌, ◌&&◌, not, ◌≡◌, refl, List, [], ◌∷◌, keep, arith, ◌==◌, eq_iff,
}
use foundation_protocol.TextSet.{contains, add, discard, union, difference, Distinct}

pub contains-add :
    (s : List String) (x y : String) → contains (add s x) y ≡ (x == y || contains s y)
unfolding add contains
contains-add s x y = ground (arith, eq_iff x y)

contains-keep :
    (p : String → Bool) (s : List String) (y : String)
    → contains (keep p s) y ≡ (contains s y && p y)
unfolding contains
contains-keep p [] y = refl
contains-keep p (x ∷ s) y = ground (arith, eq_iff x y, contains-keep p s y)

pub contains-discard :
    (s : List String) (x y : String) → contains (discard s x) y ≡ (contains s y && not (y == x))
unfolding discard
contains-discard s x y = contains-keep (λ y. not (y == x)) s y

pub contains-difference :
    (s t : List String) (y : String)
    → contains (difference s t) y ≡ (contains s y && not (contains t y))
unfolding difference
contains-difference s t y = contains-keep (λ y. not (contains t y)) s y

pub contains-union :
    (s t : List String) (y : String) → contains (union s t) y ≡ (contains s y || contains t y)
unfolding union contains
contains-union s [] y = ground arith
contains-union s (x ∷ t) y = ground (arith, contains-union (add s x) t y, contains-add s x y)

pub add-Distinct : (s : List String) (x : String) → Distinct s → Distinct (add s x)
unfolding add
add-Distinct s x h = ground arith

keep-Distinct : (p : String → Bool) (s : List String) → Distinct s → Distinct (keep p s)
unfolding contains
keep-Distinct p [] h = tt
keep-Distinct p (x ∷ s) h = ground (arith, contains-keep p s x, keep-Distinct p s h.1)

pub discard-Distinct : (s : List String) (x : String) → Distinct s → Distinct (discard s x)
unfolding discard
discard-Distinct s x h = keep-Distinct (λ y. not (y == x)) s h
