-- ===== src/Dict/Laws.antt =====
-- The laws of dictionaries, each in the form of a test on the keys.
use foundation_protocol.Prelude.{
  String, ◌≡◌, refl, ◌||◌, ◌&&◌, not, none, some, [], ◌∷◌, arith, ◌==◌, eq_iff, if◌then◌else◌,
}
use foundation_protocol.TextSet.{contains, Distinct}
use foundation_protocol.Dict.{Dict, get, put, remove, keys, has, set_default}

module _ {ℓ} {V : Type ℓ} where
  pub get-put :
      (d : Dict V) (k j : String) (v : V) → get (put d k v) j ≡ (if k == j then some v else get d j)
  unfolding get put
  get-put [] k j v = refl
  get-put ((i, w) ∷ d) k j v = ground (arith, eq_iff k j, eq_iff i k, eq_iff i j, get-put d k j v)

  pub get-remove :
      (d : Dict V) (k j : String) → get (remove d k) j ≡ (if k == j then none else get d j)
  unfolding get remove
  get-remove [] k j = ground arith
  get-remove ((i, w) ∷ d) k j = ground (arith, get-remove d k j, eq_iff i k, eq_iff i j, eq_iff k j)

  pub has-put : (d : Dict V) (k j : String) (v : V) → has (put d k v) j ≡ (k == j || has d j)
  unfolding has
  has-put d k j v = ground (arith, get-put d k j v)

  pub has-remove : (d : Dict V) (k j : String) → has (remove d k) j ≡ (not (k == j) && has d j)
  unfolding has
  has-remove d k j = ground (arith, get-remove d k j)

  pub get-set_default :
      (d : Dict V) (k j : String) (v : V)
      → get (set_default d k v) j ≡ (if (k == j) && not (has d k) then some v else get d j)
  unfolding set_default has
  get-set_default d k j v = ground (arith, get-put d k j v, eq_iff k j)

  -- A key is in the dictionary exactly if it is among the keys.
  pub contains-keys : (d : Dict V) (k : String) → contains (keys d) k ≡ has d k
  unfolding has get contains
  contains-keys [] k = refl
  contains-keys ((i, w) ∷ d) k = ground (arith, contains-keys d k)

  contains-keys-put :
      (d : Dict V) (k j : String) (v : V)
      → contains (keys (put d k v)) j ≡ (k == j || contains (keys d) j)
  contains-keys-put d k j v =
      ground (arith, contains-keys (put d k v) j, contains-keys d j, has-put d k j v)

  contains-keys-remove :
      (d : Dict V) (k j : String)
      → contains (keys (remove d k)) j ≡ (not (k == j) && contains (keys d) j)
  contains-keys-remove d k j =
      ground (arith, contains-keys (remove d k) j, contains-keys d j, has-remove d k j)

  pub put-Distinct :
      (d : Dict V) (k : String) (v : V) → Distinct (keys d) → Distinct (keys (put d k v))
  unfolding put contains
  put-Distinct [] k v h = (refl, tt)
  put-Distinct ((i, w) ∷ d) k v h =
      ground (arith, eq_iff i k, eq_iff k i, contains-keys-put d k i v, put-Distinct d k v h.1)

  pub remove-Distinct : (d : Dict V) (k : String) → Distinct (keys d) → Distinct (keys (remove d k))
  unfolding remove contains
  remove-Distinct [] k h = tt
  remove-Distinct ((i, w) ∷ d) k h =
      ground (arith, eq_iff i k, contains-keys-remove d k i, remove-Distinct d k h.1)
