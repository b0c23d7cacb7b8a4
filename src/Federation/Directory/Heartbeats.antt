-- ===== src/Federation/Directory/Heartbeats.antt =====
-- What a heartbeat without a replacement leaves in a directory.
use foundation_protocol.Prelude.{
  ℕ, ◌+◌, ◌*◌, String, ◌≡◌, inl, inr, Bool, true, Option, none, some, arith, eq_refl, leb,
  Option-cases, Bool-cases, ap,
}
use foundation_protocol.Dict
use foundation_protocol.Dict.Laws.{get-put}
use foundation_protocol.Protocol.Errors.{Result, ok}
use foundation_protocol.Protocol.Json.{Json}
use foundation_protocol.Runtime.Revise.{Result-cases}
use foundation_protocol.Federation.Cards.{FpServerCard, init_card, is_expired, is_unsigned}
use foundation_protocol.Federation.Directory.{
  DirectoryEntry, Directory, refreshed, ttl_of, get_entry, set_entry, is_allowed, heartbeat,
}
use foundation_protocol.Federation.Directory.Resolving.{init_card-same}

-- The entry of a server whose card has been refreshed.
pub record IsRefreshed (entity_id : String) (now : ℕ) (before after : Directory)
    (card : FpServerCard) : Type 0 where
  pub old : DirectoryEntry
  pub there : Dict.get before.entries entity_id ≡ some old
  pub unsigned : is_unsigned old.card ≡ true
  pub same_card : card ≡ refreshed now old.card
  -- it expires when its time to live has passed
  pub lives : (t : ℕ) → is_expired t card ≡ leb (now + ttl_of old.card.ttl_seconds * 1000000) t
  pub stored :
      Dict.get after.entries entity_id
      ≡ some (record old { card = card; last_heartbeat_at = some now })

module _ (str : Json → String) (verify_ed25519 : FpServerCard → String → String → Bool)
    (now later : ℕ) (entity_id : String) (actor_ref : Option String) (d : Directory) where
  abbrev beat : Result FpServerCard × Directory
  beat = heartbeat str verify_ed25519 now later entity_id actor_ref none d

  -- A heartbeat without a replacement that returns a card has found an entry with an unsigned card,
  -- returns that card with new times, which expires when its time to live has passed from now on,
  -- and has stored it with the time of the heartbeat and the old health.
  pub heartbeat-IsRefreshed :
      (card : FpServerCard) → beat.0 ≡ ok card → IsRefreshed entity_id now d beat.1 card
  unfolding heartbeat get_entry set_entry
  heartbeat-IsRefreshed card e = elim (Option-cases (Dict.get d.entries entity_id)) [
    | inl p ↦ absurd (ground (arith, e, p))
    | inr (old, p) ↦ elim (Bool-cases (is_allowed str "acl_publish" old.card actor_ref)) [
      | inr q ↦ absurd (ground (arith, e, p, q))
      | inl q ↦ elim (Bool-cases (is_unsigned old.card)) [
        | inr u ↦ absurd (ground (arith, e, p, q, u))
        | inl u ↦ elim (Result-cases (init_card (refreshed now old.card))) [
          | inr (error, c) ↦ absurd (ground (arith, e, p, q, u, c))
          | inl (made, c) ↦
              let same = init_card-same (refreshed now old.card) made c in
              let card_is : card ≡ refreshed now old.card = ground (arith, e, p, q, u, c, same) in
              record {
                old = old;
                there = p;
                unsigned = u;
                same_card = card_is;
                lives = λ t. ap (is_expired t) card_is;
                stored = ground (
                  arith,
                  e,
                  p,
                  q,
                  u,
                  c,
                  same,
                  get-put d.entries entity_id entity_id
                      (record old { card = made; last_heartbeat_at = some now }),
                  eq_refl entity_id,
                );
              }
        ]
      ]
    ]
  ]
