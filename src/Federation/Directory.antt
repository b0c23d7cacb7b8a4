-- ===== src/Federation/Directory.antt =====
-- `DirectoryService` of src/fp/federation/directory_service.py. The clock is an argument, and `str` of
-- an ACL item a parameter.
pub mod Resolving
pub mod Publishing
pub mod Heartbeats
use foundation_protocol.Prelude.{
  ℕ, zero, suc, ◌+◌, ◌*◌, String, Bool, true, false, not, ◌&&◌, ◌||◌, Option, none, some, List, [],
  ◌∷◌, is_empty, is_none, ◌==◌, if◌then◌else◌,
}
use foundation_protocol.Dict
use foundation_protocol.Dict.{Dict}
use foundation_protocol.TextSet.{contains}
use foundation_protocol.Protocol.Errors.{
  Result, ok, err, Exec, fp_error, not_found, already_exists, auth_required, authz_denied,
  invalid_argument, check, pure, raise, raise_if, gets, modify, lift, ◌>>=◌, ◌>>◌,
}
use foundation_protocol.Protocol.Json.{Json, arr, Items, nil, cons, Fields, get_field}
use foundation_protocol.Federation.Cards.{
  FpServerCard, init_card, is_expired, is_unsigned, verify_server_card,
}

pub record DirectoryEntry : Type 0 where
  pub card : FpServerCard
  pub healthy : Bool
  pub health_reason : Option String
  pub last_heartbeat_at : Option ℕ

pub record Directory : Type 0 where
  pub entries : Dict DirectoryEntry
  pub public_keys : Dict String
  pub require_signature : Bool

-- `_iso(now_ts + timedelta(seconds=ttl))`, with `card.ttl_seconds or 600`
abbrev pub ttl_of : Option ℕ → ℕ
ttl_of none = 600
ttl_of (some zero) = 600
ttl_of (some (suc n)) = suc n

-- The card after a heartbeat.
abbrev pub refreshed : ℕ → FpServerCard → FpServerCard
refreshed now card = record card {
  issued_at = some now;
  expires_at = some (now + ttl_of card.ttl_seconds * 1000000);
}

abbrev pub fresh_entry : FpServerCard → DirectoryEntry
fresh_entry card = record {
  card = card;
  healthy = true;
  health_reason = none;
  last_heartbeat_at = none;
}

abbrev stored_or_raise : Option DirectoryEntry → Exec Directory DirectoryEntry
stored_or_raise none = raise not_found
stored_or_raise (some entry) = pure entry

-- `entry = self._entries.get(entity_id)`, or `NOT_FOUND`
unfoldable pub get_entry : String → Exec Directory DirectoryEntry
get_entry entity_id d = stored_or_raise (Dict.get d.entries entity_id) d

unfoldable pub set_entry : String → DirectoryEntry → Exec Directory (Unit {0})
set_entry entity_id entry d = (ok tt, record d { entries = Dict.put d.entries entity_id entry })

-- An expired entry is taken out before the error is raised again.
abbrev forget : String → Exec Directory DirectoryEntry
forget entity_id d =
    (err (fp_error not_found), record d { entries = Dict.remove d.entries entity_id })

unfoldable pub get_valid_entry : ℕ → String → Exec Directory DirectoryEntry
unfolding get_entry
get_valid_entry now entity_id = do
  entry ← get_entry entity_id
  if is_expired now entry.card then forget entity_id else pure entry

module _ (str : Json → String) where
  unfoldable pub acl_items : Items → List String
  acl_items nil = []
  acl_items (cons item items) = str item ∷ acl_items items

  -- `_acl_values`; a JSON value is no `set` and no `tuple`
  abbrev acl_values : Option Json → List String
  acl_values (some (arr items)) = acl_items items
  acl_values _ = []

  abbrev in_acl : List String → Option String → Bool
  in_acl acl none = false
  in_acl acl (some actor) = contains acl actor

  -- The card's list under `key` lets the actor pass.
  abbrev pub is_allowed : String → FpServerCard → Option String → Bool
  is_allowed key card actor_ref =
      let acl = acl_values (get_field card.metadata key) in is_empty acl || in_acl acl actor_ref

  unfoldable pub resolve : ℕ → String → Option String → Bool → Exec Directory FpServerCard
  unfolding get_valid_entry
  resolve now entity_id actor_ref require_healthy = do
    entry ← get_valid_entry now entity_id
    raise_if (not (is_allowed "acl_read" entry.card actor_ref)) authz_denied
    raise_if (require_healthy && not entry.healthy) not_found
    lift (init_card entry.card)

  -- The loop of `list` over the entity ids that it found first.
  unfoldable pub resolve_each :
      ℕ → List String → Option String → Bool → Directory → List FpServerCard × Directory
  unfolding resolve
  resolve_each now [] actor_ref require_healthy d = ([], d)
  resolve_each now (id ∷ ids) actor_ref require_healthy d =
      let (got, d') = resolve now id actor_ref require_healthy d in
      let (cards, d'') = resolve_each now ids actor_ref require_healthy d' in
      elim got [ ok card ↦ (card ∷ cards, d'') | err e ↦ (cards, d'') ]

  unfoldable pub list : ℕ → Option String → Bool → Directory → List FpServerCard × Directory
  unfolding resolve_each
  list now actor_ref require_healthy d =
      resolve_each now (Dict.keys d.entries) actor_ref require_healthy d

  module _ (verify_ed25519 : FpServerCard → String → String → Bool) where
    unfoldable pub verify_signature : FpServerCard → Exec Directory (Unit {0})
    unfolding verify_server_card
    verify_signature card d =
        if is_unsigned card
        then raise_if d.require_signature auth_required d
        else (do
          verified ← lift (verify_server_card verify_ed25519 d.public_keys card)
          raise_if (not verified) auth_required)
            d

    unfoldable pub publish : ℕ → FpServerCard → Option String → Bool → Exec Directory FpServerCard
    unfolding verify_signature set_entry
    publish now card actor_ref upsert = do
      raise_if (not (is_allowed "acl_publish" card actor_ref)) authz_denied
      verify_signature card
      raise_if (is_expired now card) not_found
      exists ← gets (λ d. not (is_none (Dict.get d.entries card.entity_id)))
      raise_if (exists && not upsert) already_exists
      copy ← lift (init_card card)
      set_entry card.entity_id (fresh_entry copy)
      pure copy

    -- The two readings of the clock of a heartbeat with a replacement are `now` and `later`.
    unfoldable pub heartbeat :
        ℕ → ℕ → String → Option String → Option FpServerCard → Exec Directory FpServerCard
    unfolding publish get_entry set_entry
    heartbeat now later entity_id actor_ref none = do
      entry ← get_entry entity_id
      raise_if (not (is_allowed "acl_publish" entry.card actor_ref)) authz_denied
      raise_if (not (is_unsigned entry.card)) invalid_argument
      card ← lift (init_card (refreshed now entry.card))
      set_entry entity_id (record entry { card = card; last_heartbeat_at = some now })
      pure card
    heartbeat now later entity_id actor_ref (some replacement) = do
      raise_if (not (replacement.entity_id == entity_id)) invalid_argument
      card ← publish now replacement actor_ref true
      entry ← get_entry entity_id
      set_entry entity_id (record entry { last_heartbeat_at = some later })
      pure card

unfoldable pub set_health : String → Bool → Option String → Exec Directory (Unit {0})
unfolding get_entry set_entry
set_health entity_id healthy reason = do
  entry ← get_entry entity_id
  set_entry entity_id (record entry { healthy = healthy; health_reason = reason })

-- `health`: whether the server is healthy, the reason, and the time of the last heartbeat
unfoldable pub health : String → Exec Directory (Bool × Option String × Option ℕ)
unfolding get_entry
health entity_id = do
  entry ← get_entry entity_id
  pure (entry.healthy, entry.health_reason, entry.last_heartbeat_at)
