-- ===== src/Economy/Receipts/Proofs.antt =====
-- A receipt that the service issues passes its own check.
use Prim.Native.Char.{code}
use Prim.Native.String.{◌++◌ as cat, []}
use Prim.Native.String.append
use foundation_protocol.Prelude.{
  ℕ, String, Bool, true, false, not, ◌&&◌, none, some, List, nat_eq, ◌==◌, ◌≡◌, refl, arith, ap,
  ◌∙◌, eq_refl, ◌⊎◌, inl, inr, Option-cases,
}
use foundation_protocol.Protocol.Errors.{ok}
use foundation_protocol.Protocol.Models.Economy.{MeterRecord, Receipt, init_receipt}
use foundation_protocol.Protocol.Models.Signed.{require_non_empty}
use foundation_protocol.Economy.Receipts.{
  Signatures, SigningMode, ReceiptService, proof_of, ed25519, hmac, behind, split_last, issue,
  verify, verification_key,
}

-- no colon stands in the text
abbrev colon_free : String → Bool
colon_free String.[] = true
colon_free (String.◌∷◌ c text) = not (nat_eq (code c) 58) && colon_free text

split_last-colon_free : (text : String) → colon_free text ≡ true → split_last text ≡ none
unfolding split_last
split_last-colon_free String.[] h = refl
split_last-colon_free (String.◌∷◌ c text) h = ground (arith, split_last-colon_free text)

-- The last colon of `a:b` is the one in the middle where `b` has none.
split_last-cat : (a b : String) → colon_free b ≡ true → split_last (cat a (cat ":" b)) ≡ some (a, b)
unfolding split_last
split_last-cat String.[] b h =
    ap split_last
      (append.nil (cat ":" b) ∙ append.cons ":" [] b ∙ ap (String.◌∷◌ ":") (append.nil b))
    ∙ ground (arith, split_last-colon_free b h)
split_last-cat (String.◌∷◌ c a) b h =
    ap split_last (append.cons c a (cat ":" b)) ∙ ground (arith, split_last-cat a b h)

-- A prefix is taken off.
behind-cat : (a b : String) → behind a (cat a b) ≡ some b
unfolding behind
behind-cat String.[] b = ap some (append.nil b)
behind-cat (String.◌∷◌ c a) b =
    ap (behind (String.◌∷◌ c a)) (append.cons c a b) ∙ ground (arith, behind-cat a b)

other_prefix : (s : String) → behind "ed25519:" (cat "hmac-sha256:" s) ≡ none
unfolding behind
other_prefix s = ap (behind "ed25519:") (append.cons "h" "mac-sha256:" s)

mode-cases : (m : SigningMode) → (m ≡ ed25519) ⊎ (m ≡ hmac)
mode-cases ed25519 = inl refl
mode-cases hmac = inr refl

module _ (signatures : Signatures) (service : ReceiptService) where
  -- A private key whose signatures the key that is looked up accepts.
  pub record IsPair (private_key : String) : Type 0 where
    pub public_key : String
    pub listed : verification_key signatures service service.key_ref ≡ some public_key
    pub named : (service.key_ref == "") ≡ false
    pub full : (p : List ℕ) → (signatures.sign_ed25519 p private_key == "") ≡ false
    pub plain : (p : List ℕ) → colon_free (signatures.sign_ed25519 p private_key) ≡ true
    pub verifies :
        (p : List ℕ)
        → signatures.verify_ed25519 p (signatures.sign_ed25519 p private_key) public_key ≡ true

  -- What the service relies on: no signature is empty, and its key pair is one.
  pub record CanSign : Type 0 where
    pub mac_full : (p : List ℕ) → (signatures.hmac_sha256 p service.secret == "") ≡ false
    pub pair :
        (private_key : String) → service.private_key_pem ≡ some private_key → IsPair private_key

  abbrev payload_of : Receipt → List ℕ
  payload_of r =
      signatures.canonical_payload r.receipt_id r.activity_id r.provider_entity_id r.meter_records

  issued_proof :
      (activity provider : String) (records : List MeterRecord) (uuid : String) (now : ℕ)
      (r : Receipt)
      → issue signatures service activity provider records uuid now ≡ ok r
      → proof_of signatures service.signing_mode service (payload_of r) service.private_key_pem
        ≡ ok r.integrity_proof
  unfolding issue init_receipt require_non_empty
  issued_proof activity provider records uuid now r h = ground (arith, h)

  verify_mac_lem :
      (r : Receipt)
      → CanSign
      → r.integrity_proof
        ≡ cat "hmac-sha256:" (signatures.hmac_sha256 (payload_of r) service.secret)
      → verify signatures service r ≡ true
  unfolding verify
  verify_mac_lem r can h =
      let mac = signatures.hmac_sha256 (payload_of r) service.secret in
      ground (
        arith,
        h,
        other_prefix mac,
        behind-cat "hmac-sha256:" mac,
        can.mac_full (payload_of r),
        eq_refl mac,
      )

  verify_signed_lem :
      (r : Receipt) (private_key : String)
      → IsPair private_key
      → r.integrity_proof
        ≡ cat "ed25519:"
            (cat service.key_ref (cat ":" (signatures.sign_ed25519 (payload_of r) private_key)))
      → verify signatures service r ≡ true
  unfolding verify
  verify_signed_lem r private_key pair h =
      let signature = signatures.sign_ed25519 (payload_of r) private_key in
      ground (
        arith,
        h,
        behind-cat "ed25519:" (cat service.key_ref (cat ":" signature)),
        split_last-cat service.key_ref signature (pair.plain (payload_of r)),
        pair.listed,
        pair.named,
        pair.full (payload_of r),
        pair.verifies (payload_of r),
      )

  -- A receipt that a service has issued passes the check of the same service, if no signature is
  -- empty, an ed25519 signature has no colon, the reference of its key is not empty, and the key
  -- that is found under the reference accepts what the private key has signed.
  pub verify-issue :
      (activity provider : String) (records : List MeterRecord) (uuid : String) (now : ℕ)
      (r : Receipt)
      → CanSign
      → issue signatures service activity provider records uuid now ≡ ok r
      → verify signatures service r ≡ true
  verify-issue activity provider records uuid now r can h =
      let made = issued_proof activity provider records uuid now r h in
      elim (mode-cases service.signing_mode) [
        | inr m ↦ verify_mac_lem r can (ground (arith, made, m))
        | inl m ↦ elim (Option-cases service.private_key_pem) [
          | inl none_ ↦ absurd (ground (arith, made, m, none_))
          | inr (key, e) ↦ verify_signed_lem r key (can.pair key e) (ground (arith, made, m, e))
        ]
      ]
