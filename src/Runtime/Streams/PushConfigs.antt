-- ===== src/Runtime/Streams/PushConfigs.antt =====
-- The push configurations of src/fp/runtime/event_engine.py, from `push_config_set` to
-- `push_config_delete`.
use foundation_protocol.Prelude.{
  String, ◌≡◌, Bool, true, false, not, Option, none, some, List, keep, arith, ◌==◌, eq_iff,
  if◌then◌else◌, inl, inr,
}
use foundation_protocol.Dict
use foundation_protocol.Dict.{Dict}
use foundation_protocol.Dict.Laws.{get-put, get-remove}
use foundation_protocol.Protocol.Errors.{
  ok, err, Exec, fp_error, not_found, raise, pure, raise_if, modify, lift, gets, ◌>>=◌, ◌>>◌,
}
use foundation_protocol.Protocol.Json.{Json}
use foundation_protocol.Runtime.Streams.{EventEngine}
use foundation_protocol.Runtime.Revise.{Result-cases}
use foundation_protocol.Runtime.Streams.Push.{PushConfig, validate}

module _ (scheme : String → String) where
  unfoldable pub push_config_set : Json → Exec EventEngine PushConfig
  push_config_set config = do
    normalized ← lift (validate scheme config)
    modify (λ engine. record engine {
      push_configs = Dict.put engine.push_configs normalized.push_config_id normalized;
    })
    pure normalized

abbrev config_or_raise : Option PushConfig → Exec EventEngine PushConfig
config_or_raise none = raise not_found
config_or_raise (some config) = pure config

unfoldable pub push_config_get : String → Exec EventEngine PushConfig
push_config_get push_config_id engine =
    config_or_raise (Dict.get engine.push_configs push_config_id) engine

abbrev is_same : Option String → String → Bool
is_same none s = false
is_same (some t) s = t == s

-- A filter that is `None` lets all pass.
abbrev within : Option String → Option String → Bool
within none scope = true
within (some wanted) scope = is_same scope wanted

unfoldable pub push_config_list : Option String → Option String → EventEngine → List PushConfig
push_config_list session_id activity_id engine =
    keep (λ c. within activity_id c.scope_activity)
      (keep (λ c. within session_id c.scope_session) (Dict.values engine.push_configs))

unfoldable pub push_config_delete : String → Exec EventEngine (Unit {0})
unfolding Dict.has
push_config_delete push_config_id = do
  known ← gets (λ engine. Dict.has engine.push_configs push_config_id)
  raise_if (not known) not_found
  modify (λ engine. record engine { push_configs = Dict.remove engine.push_configs push_config_id })

module _ (scheme : String → String) (config : Json) (engine : EventEngine) where
  -- A push configuration that is accepted is read back under its id and each other id is read as
  -- before; where it is refused, every id is read as before.
  pub get-set :
      (id : String)
      → let (set, after) = push_config_set scheme config engine in
        (push_config_get id after).0 ≡ elim set [
          | err e ↦ (push_config_get id engine).0
          | ok c ↦ if c.push_config_id == id then ok c else (push_config_get id engine).0
        ]
  unfolding push_config_set push_config_get
  get-set id = elim (Result-cases (validate scheme config)) [
    | inr (e, p) ↦ ground (arith, p)
    | inl (c, p) ↦ ground (arith, p, get-put engine.push_configs c.push_config_id id c)
  ]

-- After push_config_delete the id is not found, and each other id is read as before.
pub get-delete :
    (push_config_id id : String) (engine : EventEngine)
    → (push_config_get id (push_config_delete push_config_id engine).1).0
      ≡ (if push_config_id == id then err (fp_error not_found) else (push_config_get id engine).0)
unfolding push_config_delete push_config_get
get-delete push_config_id id engine =
    ground (arith, get-remove engine.push_configs push_config_id id, eq_iff push_config_id id)
