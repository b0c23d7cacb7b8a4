-- ===== src/Economy/Receipts.antt =====
-- src/fp/economy/receipt.py: receipts with a proof of their integrity. The ed25519 functions, the HMAC
-- and the bytes that `json.dumps` gives for a receipt are parameters.
pub mod Proofs
use Prim.Native.Char.{code}
use Prim.Native.String.{◌++◌ as cat}
use foundation_protocol.Prelude.{
  ℕ, String, Bool, true, false, not, ◌&&◌, ◌||◌, Option, none, some, List, nat_eq, ◌==◌,
  if◌then◌else◌,
}
use foundation_protocol.Dict
use foundation_protocol.Dict.{Dict}
use foundation_protocol.Protocol.Errors.{Result, ok, err, value_error}
use foundation_protocol.Protocol.Models.Economy.{MeterRecord, Receipt, init_receipt}

pub data SigningMode : Type 0 where
  ed25519 hmac : SigningMode

-- What the code takes from the cryptographic libraries and from `json`.
pub record Signatures : Type 0 where
  -- `_canonical_payload`: the bytes of the receipt's id, activity, provider and meter records
  pub canonical_payload : String → String → String → List MeterRecord → List ℕ
  pub ed25519_available : Bool
  -- a private and a public key
  pub generate_keypair : String × String
  pub sign_ed25519 : List ℕ → String → String
  -- payload, signature, public key
  pub verify_ed25519 : List ℕ → String → String → Bool
  -- `hmac.new(secret, payload, sha256).hexdigest()`
  pub hmac_sha256 : List ℕ → String → String

pub record ReceiptService : Type 0 where
  pub secret : String
  pub key_ref : String
  pub public_keys : Dict String
  pub signing_mode : SigningMode
  pub private_key_pem : Option String
  pub public_key_pem : Option String

-- `text.startswith(prefix)` with `text[len(prefix):]`
unfoldable pub behind : String → String → Option String
behind String.[] text = some text
behind (String.◌∷◌ c prefix) String.[] = none
behind (String.◌∷◌ c prefix) (String.◌∷◌ d text) =
    let rest = behind prefix text in if nat_eq (code c) (code d) then rest else none

-- `text.rsplit(":", 1)`, which has two parts where `":" in text`
abbrev split_here : Bool → String → Option (String × String)
split_here true rest = some ("", rest)
split_here false rest = none

unfoldable pub split_last : String → Option (String × String)
split_last String.[] = none
split_last (String.◌∷◌ c text) =
    let later = split_last text in
    elim later [
      | none ↦ split_here (nat_eq (code c) 58) text
      | some (left, right) ↦ some (String.◌∷◌ c left, right)
    ]

module _ (signatures : Signatures) where
  abbrev chosen_mode : Option SigningMode → SigningMode
  chosen_mode none = if signatures.ed25519_available then ed25519 else hmac
  chosen_mode (some mode) = mode

  -- `_public_keys.setdefault(key_ref, public_key)`
  abbrev with_keys : ReceiptService → Option String → Option String → Result ReceiptService
  with_keys service none none =
      let (private_key, public_key) = signatures.generate_keypair in
      ok (record service {
        private_key_pem = some private_key;
        public_key_pem = some public_key;
        public_keys = Dict.set_default service.public_keys service.key_ref public_key;
      })
  with_keys service (some private_key) none = err value_error
  with_keys service private_key (some public_key) = ok (record service {
    private_key_pem = private_key;
    public_key_pem = some public_key;
    public_keys = Dict.set_default service.public_keys service.key_ref public_key;
  })

  abbrev keyed : SigningMode → ReceiptService → Result ReceiptService
  keyed hmac service = ok service
  keyed ed25519 service = with_keys service service.private_key_pem service.public_key_pem

  -- `__init__`; no mode is `auto`
  unfoldable pub init_service :
      String
      → Option SigningMode
      → Option String
      → Option String
      → String
      → Dict String
      → Result ReceiptService
  init_service secret mode private_key_pem public_key_pem key_ref public_keys =
      keyed (chosen_mode mode) (record {
        secret = secret;
        key_ref = key_ref;
        public_keys = public_keys;
        signing_mode = chosen_mode mode;
        private_key_pem = private_key_pem;
        public_key_pem = public_key_pem;
      })

  -- the text of `integrity_proof`
  abbrev pub ed25519_proof : String → List ℕ → String → String
  ed25519_proof key_ref payload private_key =
      cat "ed25519:" (cat key_ref (cat ":" (signatures.sign_ed25519 payload private_key)))

  abbrev pub proof_of : SigningMode → ReceiptService → List ℕ → Option String → Result String
  proof_of ed25519 service payload none = err value_error
  proof_of ed25519 service payload (some private_key) =
      ok (ed25519_proof service.key_ref payload private_key)
  proof_of hmac service payload _ =
      ok (cat "hmac-sha256:" (signatures.hmac_sha256 payload service.secret))

  abbrev with_proof : Result String → (String → Result Receipt) → Result Receipt
  with_proof (ok proof) f = f proof
  with_proof (err e) f = err e

  unfoldable pub issue :
      ReceiptService → String → String → List MeterRecord → String → ℕ → Result Receipt
  unfolding init_receipt
  issue service activity_id provider_entity_id meter_records uuid now =
      let receipt_id = cat "rcpt-" uuid in
      let payload =
        signatures.canonical_payload receipt_id activity_id provider_entity_id meter_records in
      with_proof (proof_of service.signing_mode service payload service.private_key_pem) λ proof.
        init_receipt (record {
          receipt_id = receipt_id;
          activity_id = activity_id;
          provider_entity_id = provider_entity_id;
          meter_records = meter_records;
          integrity_proof = proof;
          created_at = now;
        })

  -- The key that is listed, or the service's own.
  unfoldable pub verification_key : ReceiptService → String → Option String
  verification_key service key_ref = elim (Dict.get service.public_keys key_ref) [
    | none ↦ service.public_key_pem
    | some public_key ↦ some public_key
  ]

  abbrev by_key : List ℕ → String → Option String → Bool
  by_key payload signature none = false
  by_key payload signature (some public_key) =
      signatures.verify_ed25519 payload signature public_key

  abbrev pub verify_signed : ReceiptService → List ℕ → Option (String × String) → Bool
  verify_signed service payload none = false
  verify_signed service payload (some (key_ref, signature)) =
      if key_ref == "" || signature == ""
      then false
      else by_key payload signature (verification_key service key_ref)

  -- `verify_hmac_sha256`, with `compare_digest` as equality
  abbrev pub verify_mac : ReceiptService → List ℕ → Option String → Bool
  verify_mac service payload none = false
  verify_mac service payload (some signature) =
      if signature == "" then false else signatures.hmac_sha256 payload service.secret == signature

  unfoldable pub verify : ReceiptService → Receipt → Bool
  unfolding behind split_last verification_key
  verify service receipt =
      let payload =
        signatures.canonical_payload receipt.receipt_id receipt.activity_id
          receipt.provider_entity_id receipt.meter_records in
      elim (behind "ed25519:" receipt.integrity_proof) [
        | some encoded ↦ verify_signed service payload (split_last encoded)
        | none ↦ verify_mac service payload (behind "hmac-sha256:" receipt.integrity_proof)
      ]
