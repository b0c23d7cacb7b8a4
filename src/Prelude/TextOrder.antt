-- ===== src/Prelude/TextOrder.antt =====
-- Python's order of `str`, by code points, and its laws.
use Prim.Native.Nat.{ℕ, Ordering, compare as compare_ℕ}
use Prim.Native.String.compare
use Prim.Native.String.{String, compare, then}
use Prim.Native.Char.{code}
use mathlib.Core.Path.{◌≡◌, sym, ◌∙◌}
use mathlib.Core.Logic.{◌≢◌}
use mathlib.Core.Bool.{Bool, true, false}
use native.Mathlib.Omega.{arith}
use text.Mathlib.TextEquality.{path_by_compare}
use text.Mathlib.TextPositions.{compare_refl}

-- `a < b` on two texts
abbrev pub text_lt : String → String → Bool
text_lt a b = elim (compare a b) [ Ordering.lt ↦ true | _ ↦ false ]

abbrev pub TextLt : String → String → Type 0
TextLt a b = text_lt a b ≡ true

abbrev Lt : String → String → Type 0
Lt a b = compare a b ≡ Ordering.lt

pub TextLt-irrefl : (a : String) → TextLt a a → ⊥
TextLt-irrefl a h = ground (arith, compare_refl a)

number_flip :
    (m n : ℕ) (o r : Ordering)
    → (o ≡ Ordering.gt → r ≡ Ordering.lt)
    → then (compare_ℕ m n) o ≡ Ordering.gt
    → then (compare_ℕ n m) r ≡ Ordering.lt
number_flip m n o r ih h = ground arith

compare_flip : (a b : String) → compare a b ≡ Ordering.gt → Lt b a
compare_flip String.[] String.[] h = ground (arith, compare.nil-nil)
compare_flip String.[] (String.◌∷◌ d t) h = ground (arith, compare.nil-cons d t)
compare_flip (String.◌∷◌ c s) String.[] h = compare.nil-cons c s
compare_flip (String.◌∷◌ c s) (String.◌∷◌ d t) h =
    compare.cons-cons d c t s
    ∙ number_flip (code c) (code d) (compare s t) (compare t s) (compare_flip s t)
        (sym (compare.cons-cons c d s t) ∙ h)

number_trans :
    (m n p : ℕ) (o r q : Ordering)
    → (o ≡ Ordering.lt → r ≡ Ordering.lt → q ≡ Ordering.lt)
    → then (compare_ℕ m n) o ≡ Ordering.lt
    → then (compare_ℕ n p) r ≡ Ordering.lt
    → then (compare_ℕ m p) q ≡ Ordering.lt
number_trans m n p o r q ih h k = ground arith

Lt_trans : (a b c : String) → Lt a b → Lt b c → Lt a c
Lt_trans String.[] String.[] c h k = k
Lt_trans String.[] (String.◌∷◌ d t) String.[] h k = ground (arith, compare.cons-nil d t)
Lt_trans String.[] (String.◌∷◌ d t) (String.◌∷◌ e u) h k = compare.nil-cons e u
Lt_trans (String.◌∷◌ c s) String.[] u h k = ground (arith, compare.cons-nil c s)
Lt_trans (String.◌∷◌ c s) (String.◌∷◌ d t) String.[] h k = ground (arith, compare.cons-nil d t)
Lt_trans (String.◌∷◌ c s) (String.◌∷◌ d t) (String.◌∷◌ e u) h k =
    compare.cons-cons c e s u
    ∙ number_trans (code c) (code d) (code e) (compare s t) (compare t u) (compare s u)
        (Lt_trans s t u) (sym (compare.cons-cons c d s t) ∙ h) (sym (compare.cons-cons d e t u) ∙ k)

to_Lt : (a b : String) → TextLt a b → Lt a b
to_Lt a b h = ground arith

of_Lt : (a b : String) → Lt a b → TextLt a b
of_Lt a b h = ground arith

pub TextLt-trans : (a b c : String) → TextLt a b → TextLt b c → TextLt a c
TextLt-trans a b c h k = of_Lt a c (Lt_trans a b c (to_Lt a b h) (to_Lt b c k))

-- Two texts that are different are in order one way or the other.
pub TextLt-total : (a b : String) → text_lt a b ≡ false → a ≢ b → TextLt b a
TextLt-total a b h d = ground (arith, compare_flip a b, path_by_compare a b)
