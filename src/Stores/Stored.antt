-- ===== src/Stores/Stored.antt =====
-- What a client may say of a store behind its interface: that a key is in use, and that all stored
-- values have a property.
use foundation_protocol.Prelude.{String, ◌≡◌, inl, inr, some, arith, ◌==◌, Bool-cases, subst}
use foundation_protocol.Protocol.Errors.{Result, ok}
use foundation_protocol.Stores.Interfaces.{KeyedStore}
use foundation_protocol.Runtime.Revise.{revise, revise_old, revise_new}

module _ {V : Type 0} {key_fn : V → String} (store : KeyedStore key_fn) where
  abbrev pub Stored : store.State → String → Type 0
  Stored s k = (v : V) × (store.get s k ≡ some v)

  abbrev pub AllStored : (V → Type 0) → store.State → Type 0
  AllStored P s = (k : String) (v : V) → store.get s k ≡ some v → P v

  module _ (s : store.State) where
    pub put-Stored : (v : V) (k : String) → Stored s k → Stored (store.put s v) k
    put-Stored v k (old, e) = elim (Bool-cases (key_fn v == k)) [
      | inl p ↦ (v, ground (arith, store.get-put s v k, p))
      | inr p ↦ (old, ground (arith, store.get-put s v k, p, e))
    ]

    pub put-AllStored : (P : V → Type 0) (v : V) → P v → AllStored P s → AllStored P (store.put s v)
    put-AllStored P v h all k w e = elim (Bool-cases (key_fn v == k)) [
      | inl p ↦ let same : v ≡ w = ground (arith, store.get-put s v k, p, e) in subst P same h
      | inr p ↦ all k w (ground (arith, store.get-put s v k, p, e))
    ]

    module _ (valid : store.IsValid s) (id : String) (f : V → Result V)
        (same_key : (v w : V) → f v ≡ ok w → key_fn w ≡ key_fn v) where
      pub revise-Stored : (k : String) → Stored s k → Stored (revise store id f s).1 k
      revise-Stored k (old, e) =
          let (new, there, how) = revise_old store id f same_key s valid k old e in (new, there)

      pub revise-AllStored :
          (P : V → Type 0)
          → ((a b : V) → P a → f a ≡ ok b → P b)
          → AllStored P s
          → AllStored P (revise store id f s).1
      revise-AllStored P keeps all k new e = elim (revise_new store id f same_key s valid k new e) [
        | inl old ↦ all k new old
        | inr (a, stored, made) ↦ keeps a new (all id a stored) made
      ]
