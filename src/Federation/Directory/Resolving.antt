-- ===== src/Federation/Directory/Resolving.antt =====
-- What a directory resolves: entries that are valid, readable and, on demand, healthy.
use foundation_protocol.Prelude.{
  ℕ, String, ◌≡◌, inl, inr, Bool, true, false, not, ◌&&◌, ◌||◌, Option, none, some, arith,
  if◌then◌else◌, Option-cases, Bool-cases, sym, ap, ◌∙◌,
}
use foundation_protocol.Dict
use foundation_protocol.Dict.{Dict}
use foundation_protocol.Protocol.Errors.{ok, err, fp_error, not_found, authz_denied}
use foundation_protocol.Protocol.Json.{Json}
use foundation_protocol.Protocol.Models.Signed.{require_non_empty}
use foundation_protocol.Federation.Cards.{FpServerCard, init_card, is_expired}
use foundation_protocol.Federation.Directory.{
  DirectoryEntry, Directory, get_entry, get_valid_entry, is_allowed, resolve,
}

pub init_card-same : (a b : FpServerCard) → init_card a ≡ ok b → b ≡ a
unfolding init_card require_non_empty
init_card-same a b e = ground (arith, e)

-- What a resolved card stands for.
pub record IsResolved (str : Json → String) (now : ℕ) (entity_id : String)
    (actor_ref : Option String) (require_healthy : Bool) (d : Directory) (card : FpServerCard)
    : Type 0 where
  pub entry : DirectoryEntry
  pub stored : Dict.get d.entries entity_id ≡ some entry
  pub same_card : card ≡ entry.card
  pub in_time : is_expired now card ≡ false
  pub readable : is_allowed str "acl_read" card actor_ref ≡ true
  pub well : (not require_healthy || entry.healthy) ≡ true

module _ (str : Json → String) (now : ℕ) (entity_id : String) (actor_ref : Option String)
    (require_healthy : Bool) (d : Directory) where
  resolve_missing :
      Dict.get d.entries entity_id ≡ none
      → resolve str now entity_id actor_ref require_healthy d ≡ (err (fp_error not_found), d)
  unfolding resolve get_valid_entry get_entry
  resolve_missing p = ground (arith, p)

  -- An entry that has expired is taken out of the directory, and the resolver gets `NOT_FOUND`.
  pub resolve_expired :
      (entry : DirectoryEntry)
      → Dict.get d.entries entity_id ≡ some entry
      → is_expired now entry.card ≡ true
      → resolve str now entity_id actor_ref require_healthy d
        ≡ (err (fp_error not_found), record d { entries = Dict.remove d.entries entity_id })
  unfolding resolve get_valid_entry get_entry
  resolve_expired entry p q = ground (arith, p, q)

  pub resolve_valid :
      (entry : DirectoryEntry)
      → Dict.get d.entries entity_id ≡ some entry
      → is_expired now entry.card ≡ false
      → resolve str now entity_id actor_ref require_healthy d ≡ (
        if not (is_allowed str "acl_read" entry.card actor_ref)
            then err (fp_error authz_denied)
            else if require_healthy && not entry.healthy
            then err (fp_error not_found)
            else init_card entry.card,
        d,
      )
  unfolding resolve get_valid_entry get_entry
  resolve_valid entry p q = ground (arith, p, q)

  -- A card that is resolved is the one that is stored for the entity, has not expired, lets the
  -- actor read it and, where that is asked for, is of a server that is marked healthy.
  pub resolve-IsResolved :
      (card : FpServerCard)
      → (resolve str now entity_id actor_ref require_healthy d).0 ≡ ok card
      → IsResolved str now entity_id actor_ref require_healthy d card
  resolve-IsResolved card e = elim (Option-cases (Dict.get d.entries entity_id)) [
    | inl p ↦ absurd (cc (e, ap (λ r. r.0) (resolve_missing p)))
    | inr (entry, p) ↦ elim (Bool-cases (is_expired now entry.card)) [
      | inl q ↦ absurd (cc (e, ap (λ r. r.0) (resolve_expired entry p q)))
      | inr q ↦
          let r = sym (ap (λ r. r.0) (resolve_valid entry p q)) ∙ e in
          let made : init_card entry.card ≡ ok card = ground (arith, r) in
          let same = init_card-same entry.card card made in
          record {
            entry = entry;
            stored = p;
            same_card = same;
            in_time = ap (is_expired now) same ∙ q;
            readable = ap (λ c. is_allowed str "acl_read" c actor_ref) same ∙ ground (arith, r);
            well = ground (arith, r);
          }
    ]
  ]
