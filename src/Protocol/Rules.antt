-- ===== src/Protocol/Rules.antt =====
-- How a sequence of methods goes on after the first: with its result, or not at all.
use foundation_protocol.Prelude.{◌≡◌, ◌⊎◌, inl, inr, ap, sym, ◌∙◌}
use foundation_protocol.Protocol.Errors.{ok, err, Error, Exec, continue, ◌>>=◌}
use foundation_protocol.Runtime.Revise.{Result-cases}

module _ {S C : Type 0} (view : S → C) where
  -- The method leaves the view of the state alone.
  abbrev pub Quiet : {A : Type 0} → Exec S A → Type 0
  Quiet m = (s : S) → view (m s).1 ≡ view s

module _ {S A : Type 0} (m : Exec S A) (s : S) where
  pub Exec-cases : ((a : A) × (m s ≡ (ok a, (m s).1))) ⊎ ((e : Error) × (m s ≡ (err e, (m s).1)))
  Exec-cases = elim (Result-cases (m s).0) [
    | inl (a, p) ↦ inl (a, ap (λ r. (r, (m s).1)) p)
    | inr (e, p) ↦ inr (e, ap (λ r. (r, (m s).1)) p)
  ]

module _ {S A B : Type 0} (m : Exec S A) (f : A → Exec S B) (s t : S) where
  pub then_ok : (a : A) → m s ≡ (ok a, t) → (m >>= f) s ≡ f a t
  then_ok a p = ap (λ x. continue x.0 f x.1) p

  pub then_err : (e : Error) → m s ≡ (err e, t) → (m >>= f) s ≡ (err e, t)
  then_err e p = ap (λ x. continue x.0 f x.1) p

module _ {S C A B : Type 0} (view : S → C) (m : Exec S A) (f : A → Exec S B) where
  -- A sequence of quiet methods is quiet.
  pub then-Quiet : Quiet view m → ((a : A) → Quiet view (f a)) → Quiet view (m >>= f)
  then-Quiet hm hf s = elim (Exec-cases m s) [
    | inl (a, p) ↦ ap (λ x. view x.1) (then_ok m f s (m s).1 a p) ∙ hf a (m s).1 ∙ hm s
    | inr (e, p) ↦ ap (λ x. view x.1) (then_err m f s (m s).1 e p) ∙ hm s
  ]

module _ {S A B : Type 0} (m : Exec S A) (f : A → Exec S B) where
  -- A sequence that returns has gone through its first method.
  pub then_returns :
      (s t : S) (b : B)
      → (m >>= f) s ≡ (ok b, t)
      → (a : A) × (u : S) × (m s ≡ (ok a, u)) × (f a u ≡ (ok b, t))
  then_returns s t b h = elim (Exec-cases m s) [
    | inl (a, p) ↦ (a, (m s).1, p, sym (then_ok m f s (m s).1 a p) ∙ h)
    | inr (e, p) ↦
        let clash : ok b ≡ err e = ap (λ x. x.0) (sym h ∙ then_err m f s (m s).1 e p) in cc (clash)
  ]
