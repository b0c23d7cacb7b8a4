-- ===== src/Stores/Kv.antt =====
-- `InMemoryKVStore` of src/fp/stores/base.py. A value is copied on the way in and out, so the store
-- shares nothing with its callers.
pub mod Laws
use foundation_protocol.Prelude.{ℕ, String, Option, [], List}
use foundation_protocol.Dict
use foundation_protocol.Dict.{Dict}
use foundation_protocol.Protocol.Errors.{Result}
use foundation_protocol.Stores.Paging

pub record KvStore (V : Type 0) : Type 0 where
  pub items : Dict V

abbrev pub empty : {V : Type 0} → KvStore V
empty = record { items = [] }

module _ {V : Type 0} where
  unfoldable pub put : (V → String) → KvStore V → V → KvStore V
  put key_fn s v = record { items = Dict.put s.items (key_fn v) v }

  unfoldable pub get : KvStore V → String → Option V
  get s k = Dict.get s.items k

  unfoldable pub list : KvStore V → List V
  list s = Dict.values s.items

  unfoldable pub list_page : KvStore V → ℕ → Option String → Result (List V × Option String)
  list_page s = Paging.list_page s.items (Dict.keys s.items)

  unfoldable pub remove : KvStore V → String → Option V × KvStore V
  remove s k = (Dict.get s.items k, record { items = Dict.remove s.items k })
