-- ===== src/Stores/Kv/Laws.antt =====
-- What a client of a store can rely on.
use foundation_protocol.Prelude.{
  ℕ, ◌<◌, String, ◌≡◌, none, some, length, ◌==◌, arith, eq_iff, if◌then◌else◌,
}
use foundation_protocol.Dict
use foundation_protocol.TextSet.{Distinct}
use foundation_protocol.Stores.Kv.{KvStore, empty, put, get, list_page, remove}
use foundation_protocol.Stores.Paging.{walk, collect, sort_keys}
use foundation_protocol.Stores.Paging.Cursors.{walk_all}

module _ {V : Type 0} where
  -- A store reads back what was put last under the key, and other keys as before.
  pub get-put :
      (key_fn : V → String) (s : KvStore V) (v : V) (k : String)
      → get (put key_fn s v) k ≡ (if key_fn v == k then some v else get s k)
  unfolding get put
  get-put key_fn s v k = Dict.Laws.get-put s.items (key_fn v) k v

  pub get-remove :
      (s : KvStore V) (k j : String) → get (remove s k).1 j ≡ (if k == j then none else get s j)
  unfolding get remove
  get-remove s k j = Dict.Laws.get-remove s.items k j

  -- Each value stands under its own key, and no key stands twice.
  pub record IsKeyed (key_fn : V → String) (s : KvStore V) : Type 0 where
    pub distinct : Distinct (Dict.keys s.items)
    pub keyed : (k : String) (v : V) → Dict.get s.items k ≡ some v → key_fn v ≡ k

  pub IsKeyed-empty : (key_fn : V → String) → IsKeyed key_fn (empty {V = V})
  unfolding Dict.get
  IsKeyed-empty key_fn = record { distinct = tt; keyed = λ k v e. cc }

  pub put-IsKeyed :
      {key_fn : V → String} {s : KvStore V} (v : V)
      → IsKeyed key_fn s
      → IsKeyed key_fn (put key_fn s v)
  unfolding put
  put-IsKeyed {key_fn} {s} v h = record {
    distinct = Dict.Laws.put-Distinct s.items (key_fn v) v h.distinct;
    keyed = λ k w e.
        ground (arith, Dict.Laws.get-put s.items (key_fn v) k v, eq_iff (key_fn v) k, h.keyed k w);
  }

  pub remove-IsKeyed :
      {key_fn : V → String} {s : KvStore V} (k : String)
      → IsKeyed key_fn s
      → IsKeyed key_fn (remove s k).1
  unfolding remove
  remove-IsKeyed {key_fn} {s} k h = record {
    distinct = Dict.Laws.remove-Distinct s.items k h.distinct;
    keyed = λ j w e. ground (arith, Dict.Laws.get-remove s.items k j, h.keyed j w);
  }

  -- In a store whose values stand under their own distinct keys, following the cursors of list_page
  -- with a limit above zero and more fuel than there are values ends, and gives every stored value
  -- once, in the order of the keys.
  pub pages_all :
      (key_fn : V → String) (s : KvStore V) (limit fuel : ℕ)
      → IsKeyed key_fn s
      → 0 < limit
      → length (Dict.keys s.items) < fuel
      → walk fuel (list_page s limit) none ≡ some (collect s.items (sort_keys (Dict.keys s.items)))
  unfolding list_page
  pages_all key_fn s limit fuel h = walk_all s.items (Dict.keys s.items) limit fuel h.distinct

  pub get-keyed :
      {key_fn : V → String} {s : KvStore V}
      → IsKeyed key_fn s
      → (k : String) (v : V) → get s k ≡ some v
      → key_fn v ≡ k
  unfolding get
  get-keyed h = h.keyed
