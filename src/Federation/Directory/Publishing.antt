-- ===== src/Federation/Directory/Publishing.antt =====
-- What a publication leaves in a directory.
use foundation_protocol.Prelude.{
  ℕ, String, ◌≡◌, ◌⊎◌, inl, inr, Bool, true, false, not, ◌&&◌, Option, some, arith, is_none,
  eq_refl, Bool-cases, ap, ◌∙◌,
}
use foundation_protocol.Dict
use foundation_protocol.Dict.Laws.{get-put}
use foundation_protocol.Protocol.Errors.{
  ok, err, Error, fp_error, authz_denied, auth_required, not_found, already_exists,
}
use foundation_protocol.Protocol.Json.{Json}
use foundation_protocol.Runtime.Revise.{Result-cases}
use foundation_protocol.Federation.Cards.{
  FpServerCard, init_card, is_expired, is_unsigned, verify_server_card,
}
use foundation_protocol.Federation.Directory.{
  DirectoryEntry, Directory, set_entry, is_allowed, resolve, verify_signature, publish, fresh_entry,
}
use foundation_protocol.Federation.Directory.Resolving.{init_card-same, resolve_valid}

abbrev Genuine : (FpServerCard → String → String → Bool) → FpServerCard → Directory → Type 0
Genuine verify_ed25519 card d =
    ((is_unsigned card && not d.require_signature) ≡ true)
    ⊎ ((is_unsigned card ≡ false)
        × (verify_server_card verify_ed25519 d.public_keys card ≡ ok true))

module _ (str : Json → String) (verify_ed25519 : FpServerCard → String → String → Bool)
    (card : FpServerCard) (d : Directory) where
  verify_cases :
      ((e : Error) × (verify_signature str verify_ed25519 card d ≡ (err e, d)))
      ⊎ ((verify_signature str verify_ed25519 card d ≡ (ok tt, d)) × Genuine verify_ed25519 card d)
  unfolding verify_signature
  verify_cases = elim (Bool-cases (is_unsigned card)) [
    | inl u ↦ elim (Bool-cases d.require_signature) [
      | inl q ↦ inl (fp_error auth_required, ground (arith, u, q))
      | inr q ↦ inr (ground (arith, u, q), inl (ground (arith, u, q)))
    ]
    | inr u ↦ elim (Result-cases (verify_server_card verify_ed25519 d.public_keys card)) [
      | inr (e, q) ↦ inl (e, ground (arith, u, q))
      | inl (verified, q) ↦ elim (Bool-cases verified) [
        | inl v ↦ inr (ground (arith, u, q, v), inr (u, q ∙ ap ok v))
        | inr v ↦ inl (fp_error auth_required, ground (arith, u, q, v))
      ]
    ]
  ]

module _ (str : Json → String) (verify_ed25519 : FpServerCard → String → String → Bool) (now : ℕ)
    (card : FpServerCard) (actor_ref : Option String) (upsert : Bool) (d : Directory) where
  -- What holds of a publication that has gone through.
  pub record IsPublished : Type 0 where
    pub outcome :
        publish str verify_ed25519 now card actor_ref upsert d
        ≡ (ok card, record d { entries = Dict.put d.entries card.entity_id (fresh_entry card) })
    pub allowed : is_allowed str "acl_publish" card actor_ref ≡ true
    pub in_time : is_expired now card ≡ false
    pub checked : init_card card ≡ ok card
    pub genuine : Genuine verify_ed25519 card d

  module _ (p : is_allowed str "acl_publish" card actor_ref ≡ true)
      (v : verify_signature str verify_ed25519 card d ≡ (ok tt, d))
      (genuine : Genuine verify_ed25519 card d) where
    free_cases :
        is_expired now card ≡ false
        → (not (is_none (Dict.get d.entries card.entity_id)) && not upsert) ≡ false
        → ((e : Error) × (publish str verify_ed25519 now card actor_ref upsert d ≡ (err e, d)))
          ⊎ IsPublished
    unfolding publish set_entry
    free_cases q f = elim (Result-cases (init_card card)) [
      | inr (e, c) ↦ inl (e, ground (arith, p, v, q, f, c))
      | inl (copy, c) ↦
          let same = init_card-same card copy c in
          inr (record {
            outcome = ground (arith, p, v, q, f, c, same);
            allowed = p;
            in_time = q;
            checked = c ∙ ap ok same;
            genuine = genuine;
          })
    ]

    verified_cases :
        ((e : Error) × (publish str verify_ed25519 now card actor_ref upsert d ≡ (err e, d)))
        ⊎ IsPublished
    unfolding publish
    verified_cases = elim (Bool-cases (is_expired now card)) [
      | inl q ↦ inl (fp_error not_found, ground (arith, p, v, q))
      | inr q ↦
          elim (Bool-cases (not (is_none (Dict.get d.entries card.entity_id)) && not upsert)) [
            | inl f ↦ inl (fp_error already_exists, ground (arith, p, v, q, f))
            | inr f ↦ free_cases q f
          ]
    ]

  -- A publication raises and leaves the directory as it was, or stores the card as that of a
  -- healthy server; then the card let the actor publish, had not expired and had passed its checks,
  -- and it was unsigned in a directory that takes such cards or had a signature that was verified.
  pub publish_cases :
      ((e : Error) × (publish str verify_ed25519 now card actor_ref upsert d ≡ (err e, d)))
      ⊎ IsPublished
  unfolding publish
  publish_cases = elim (Bool-cases (is_allowed str "acl_publish" card actor_ref)) [
    | inr p ↦ inl (fp_error authz_denied, ground (arith, p))
    | inl p ↦ elim (verify_cases str verify_ed25519 card d) [
      | inl (e, v) ↦ inl (e, ground (arith, p, v))
      | inr (v, genuine) ↦ verified_cases p v genuine
    ]
  ]

  -- A card whose publication went through is resolved, until it expires, for each actor that its
  -- read list lets pass, whether or not a healthy server is asked for.
  pub resolve-publish :
      (later : ℕ) (reader : Option String) (require_healthy : Bool) (copy : FpServerCard)
      → (publish str verify_ed25519 now card actor_ref upsert d).0 ≡ ok copy
      → is_expired later card ≡ false
      → is_allowed str "acl_read" card reader ≡ true
      → (resolve str later card.entity_id reader require_healthy
          (publish str verify_ed25519 now card actor_ref upsert d).1).0
        ≡ ok card
  resolve-publish later reader require_healthy copy e q r = elim publish_cases [
    | inl (error, x) ↦ absurd (cc (e, ap (λ t. t.0) x))
    | inr g ↦ rw g.outcome (
        ap (λ t. t.0)
          (resolve_valid str later card.entity_id reader require_healthy
            (record d { entries = Dict.put d.entries card.entity_id (fresh_entry card) })
            (fresh_entry card)
            (ground (
              arith,
              get-put d.entries card.entity_id card.entity_id (fresh_entry card),
              eq_refl card.entity_id,
            ))
            q)
        ∙ ground (arith, r, g.checked))
  ]

-- Where unsigned cards are taken, a valid unsigned card that has not expired and whose own list
-- lets the actor publish replaces the stored card of the same entity, although the list of the
-- stored card does not let the actor publish.
pub publish_replaces :
    (str : Json → String) (verify_ed25519 : FpServerCard → String → String → Bool) (now : ℕ)
    (card : FpServerCard) (actor_ref : Option String) (d : Directory) (theirs : DirectoryEntry)
    → Dict.get d.entries card.entity_id ≡ some theirs
    → is_allowed str "acl_publish" theirs.card actor_ref ≡ false
    → is_allowed str "acl_publish" card actor_ref ≡ true
    → is_unsigned card ≡ true
    → d.require_signature ≡ false
    → is_expired now card ≡ false
    → init_card card ≡ ok card
    → Dict.get (publish str verify_ed25519 now card actor_ref true d).1.entries card.entity_id
      ≡ some (fresh_entry card)
unfolding publish verify_signature set_entry
publish_replaces str verify_ed25519 now card actor_ref d theirs stored denied p u q t c = ground (
  arith,
  p,
  u,
  q,
  t,
  c,
  get-put d.entries card.entity_id card.entity_id (fresh_entry card),
  eq_refl card.entity_id,
)
