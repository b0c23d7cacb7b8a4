-- ===== src/Federation/Cards.antt =====
-- `FPServerCard` of src/fp/federation/network.py and the checks of src/fp/federation/card_signing.py. A time
-- is a number of microseconds, which is what the ISO texts of the code hold. The ed25519 check of a
-- card's canonical payload is a parameter.
use foundation_protocol.Prelude.{
  ℕ, String, Bool, true, false, not, ◌&&◌, ◌||◌, Option, none, some, leb, is_none, ◌==◌,
  if◌then◌else◌,
}
use foundation_protocol.Dict
use foundation_protocol.Dict.{Dict}
use foundation_protocol.Protocol.Errors.{Result, ok, err, fp_error, invalid_argument, check}
use foundation_protocol.Protocol.Json.{Fields}
use foundation_protocol.Protocol.Models.Signed.{require_non_empty}

pub record FpServerCard : Type 0 where
  pub card_id : String
  pub entity_id : String
  pub fp_version : String
  pub rpc_url : String
  pub well_known_url : String
  pub capabilities : Fields
  pub metadata : Fields
  pub sign_alg : Option String
  pub key_ref : Option String
  pub signature : Option String
  pub issued_at : Option ℕ
  pub expires_at : Option ℕ
  -- zero stands for a number that is not above zero
  pub ttl_seconds : Option ℕ

-- `not x` on a text or `None`
abbrev missing : Option String → Bool
missing none = true
missing (some s) = s == ""

-- `ttl_seconds is not None and ttl_seconds <= 0`
abbrev bad_ttl : Option ℕ → Bool
bad_ttl none = false
bad_ttl (some ttl) = leb ttl 0

-- Some of the three fields of a signature are given and some are not.
abbrev partly_signed : FpServerCard → Bool
partly_signed card =
    not (is_none card.sign_alg && is_none card.key_ref && is_none card.signature)
    && (missing card.sign_alg || missing card.key_ref || missing card.signature)

abbrev ends_early : Option ℕ → Option ℕ → Bool
ends_early (some issued) (some expires) = leb expires issued
ends_early _ _ = false

-- `__post_init__`, which `from_dict(card.to_dict())` runs again
unfoldable pub init_card : FpServerCard → Result FpServerCard
unfolding require_non_empty
init_card card = require_non_empty card.card_id (
    require_non_empty card.entity_id (
      require_non_empty card.fp_version (
        require_non_empty card.rpc_url (
          require_non_empty card.well_known_url (
            check (bad_ttl card.ttl_seconds) invalid_argument (
              check (partly_signed card) invalid_argument
                (check (ends_early card.issued_at card.expires_at) invalid_argument (ok card))))))))

-- where `ensure_not_expired` raises `NOT_FOUND`
abbrev pub is_expired : ℕ → FpServerCard → Bool
is_expired now card = elim card.expires_at [ none ↦ false | some expires ↦ leb expires now ]

-- `sign_alg in {None, "none"}`
abbrev pub is_unsigned : FpServerCard → Bool
is_unsigned card = elim card.sign_alg [ none ↦ true | some alg ↦ alg == "none" ]

abbrev unsigned_signature : Option String → Bool
unsigned_signature none = true
unsigned_signature (some s) = s == "unsigned"

module _ (verify_ed25519 : FpServerCard → String → String → Bool) (public_keys : Dict String) where
  abbrev by_key : FpServerCard → Option String → Option String → Bool
  by_key card (some key_ref) (some signature) =
      not (key_ref == "") && not (signature == "") && elim (Dict.get public_keys key_ref) [
        | none ↦ false
        | some key ↦ verify_ed25519 card signature key
      ]
  by_key card _ _ = false

  unfoldable pub verify_server_card : FpServerCard → Result Bool
  verify_server_card card =
      if is_unsigned card then ok (unsigned_signature card.signature) else elim card.sign_alg [
        | none ↦ ok false
        | some alg ↦
            if alg == "ed25519"
            then ok (by_key card card.key_ref card.signature)
            else err (fp_error invalid_argument)
      ]
