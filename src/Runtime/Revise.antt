-- ===== src/Runtime/Revise.antt =====
-- The pattern that the engines' methods share: read the object under a key or raise, change the
-- copy, and put it back. A raise on the way leaves the store as it was.
use foundation_protocol.Prelude.{
  String, ◌≡◌, ◌⊎◌, inl, inr, Option, none, some, arith, ◌==◌, eq_iff, if◌then◌else◌, Option-cases,
  Bool-cases, refl, sym, ap, ◌∙◌, eq_refl,
}
use foundation_protocol.Protocol.Errors.{
  Result, ok, err, Error, Exec, fp_error, not_found, lift, pure, raise, ◌>>=◌, ◌>>◌,
}
use foundation_protocol.Stores.Interfaces.{KeyedStore}

module _ {V : Type 0} {key_fn : V → String} (store : KeyedStore key_fn) where
  abbrev found : Option V → Exec store.State V
  found none = raise not_found
  found (some v) = pure v

  -- `get` of an engine: the object, or `NOT_FOUND`
  unfoldable pub fetch : String → Exec store.State V
  fetch id s = found (store.get s id) s

  unfoldable pub save : V → Exec store.State (Unit {0})
  save v s = (ok tt, store.put s v)

  unfoldable pub revise : String → (V → Result V) → Exec store.State V
  unfolding fetch save
  revise id f = do v ← fetch id; w ← lift (f v); save w; pure w

module _ {V : Type 0} {key_fn : V → String} (store : KeyedStore key_fn) (id : String)
    (f : V → Result V) (s : store.State) where
  -- The three ways that a revision goes.
  pub revise_missing : store.get s id ≡ none → revise store id f s ≡ (err (fp_error not_found), s)
  unfolding revise
  revise_missing e = ground (arith, e)

  pub revise_refused :
      (v : V) (e : Error) → store.get s id ≡ some v → f v ≡ err e → revise store id f s ≡ (err e, s)
  unfolding revise
  revise_refused v e p q = ground (arith, p, q)

  pub revise_done :
      (v w : V) → store.get s id ≡ some v → f v ≡ ok w → revise store id f s ≡ (ok w, store.put s w)
  unfolding revise
  revise_done v w p q = ground (arith, p, q)

  pub revise_error : (e : Error) → (revise store id f s).0 ≡ err e → (revise store id f s).1 ≡ s
  unfolding revise
  revise_error e h = ground arith

pub Result-cases :
    {A : Type 0} (r : Result A) → ((a : A) × (r ≡ ok a)) ⊎ ((e : Error) × (r ≡ err e))
Result-cases (ok a) = inl (a, refl)
Result-cases (err e) = inr (e, refl)

module _ {V : Type 0} {key_fn : V → String} (store : KeyedStore key_fn) (id : String)
    (f : V → Result V) (s : store.State) where
  record Refusal : Type 0 where
    error : Error
    raised : (revise store id f s).0 ≡ err error
    kept : (revise store id f s).1 ≡ s

  record Change : Type 0 where
    before : V
    after : V
    stored : store.get s id ≡ some before
    changed : f before ≡ ok after
    outcome : revise store id f s ≡ (ok after, store.put s after)

  -- A revision raises and leaves the store alone, or stores what `f` returns.
  revise_cases : Refusal ⊎ Change
  revise_cases = elim (Option-cases (store.get s id)) [
    | inl p ↦
        let e = revise_missing store id f s p in
        inl
          (record { error = fp_error not_found; raised = ap (λ r. r.0) e; kept = ap (λ r. r.1) e })
    | inr (v, p) ↦ elim (Result-cases (f v)) [
      | inr (c, q) ↦
          let e = revise_refused store id f s v c p q in
          inl (record { error = c; raised = ap (λ r. r.0) e; kept = ap (λ r. r.1) e })
      | inl (w, q) ↦ inr (record {
        before = v;
        after = w;
        stored = p;
        changed = q;
        outcome = revise_done store id f s v w p q;
      })
    ]
  ]

module _ {V : Type 0} {key_fn : V → String} (store : KeyedStore key_fn) (id : String)
    (f : V → Result V) (same_key : (v w : V) → f v ≡ ok w → key_fn w ≡ key_fn v) (s : store.State)
    (valid : store.IsValid s) where
  -- After a change the store reads the new object under the key, and the old ones elsewhere.
  get-change :
      (c : Change store id f s) (k : String)
      → store.get (revise store id f s).1 k ≡ (if id == k then some c.after else store.get s k)
  get-change c k =
      ap (λ r. store.get r.1 k) c.outcome
      ∙ store.get-put s c.after k
      ∙ ap (λ j. if j == k then some c.after else store.get s k)
          (same_key c.before c.after c.changed ∙ store.keyed s id c.before valid c.stored)

  -- An object that is stored is the same afterwards, or `f` has changed it.
  pub revise_old :
      (k : String) (old : V)
      → store.get s k ≡ some old
      → (new : V) × (store.get (revise store id f s).1 k ≡ some new)
        × ((new ≡ old) ⊎ (f old ≡ ok new))
  revise_old k old e = elim (revise_cases store id f s) [
    | inl r ↦ (old, ap (λ t. store.get t k) r.kept ∙ e, inl refl)
    | inr c ↦ elim (Bool-cases (id == k)) [
      | inl same ↦ (
        c.after,
        get-change c k ∙ ap (λ b. if b then some c.after else store.get s k) same,
        inr (ground (arith, c.stored, c.changed, e, eq_iff id k)),
      )
      | inr other ↦ (
        old,
        get-change c k ∙ ap (λ b. if b then some c.after else store.get s k) other ∙ e,
        inl refl,
      )
    ]
  ]

  -- What is stored afterwards was stored before, or is what `f` made of the object under the key.
  pub revise_new :
      (k : String) (new : V)
      → store.get (revise store id f s).1 k ≡ some new
      → (store.get s k ≡ some new) ⊎ ((v : V) × (store.get s id ≡ some v) × (f v ≡ ok new))
  revise_new k new e = elim (revise_cases store id f s) [
    | inl r ↦ inl (sym (ap (λ t. store.get t k) r.kept) ∙ e)
    | inr c ↦ elim (Bool-cases (id == k)) [
      | inl same ↦ inr (c.before, c.stored, ground (arith, get-change c k, same, e, c.changed))
      | inr other ↦ inl (ground (arith, get-change c k, other, e))
    ]
  ]

  pub revise-IsValid : store.IsValid (revise store id f s).1
  revise-IsValid = elim (revise_cases store id f s) [
    | inl r ↦ rw r.kept valid
    | inr c ↦ rw c.outcome (store.put-IsValid s c.after valid)
  ]

  -- A revision that returns an object has stored it.
  pub revise_stored :
      (w : V) → (revise store id f s).0 ≡ ok w → store.get (revise store id f s).1 id ≡ some w
  revise_stored w e = elim (revise_cases store id f s) [
    | inl r ↦ cc (e, r.raised)
    | inr c ↦ ground (arith, get-change c id, eq_refl id, ap (λ r. r.0) c.outcome, e)
  ]
