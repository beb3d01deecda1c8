-- ===== src/Block/Transaction/Signing.antt =====
-- `Sign` makes transactions that pass `Validate`.
use toyblockchain.Prelude.{
  ◌<◌, ◌≡◌, ◌≢◌, refl, inr, false, [], ◌∷◌, arith, length, take, length-take, length-drop, All-take,
  All-drop, ap, sym, ok,
}
use toyblockchain.Prelude.Int.{pos, ◌≤ℤ◌}
use toyblockchain.Prelude.Bytes.{
  Bytes, hex_encode, hex_decode-hex_encode, length-hex_encode, trim_space, trim_space-hex_encode,
}
use toyblockchain.Platform.{Platform, HasDigests, HasSignatures, ed25519_public}
use toyblockchain.Block.Types.{Transaction, faucet_account}
use toyblockchain.Block.Transaction.{
  is_empty, signing_bytes, address_from_public_key, claim_sender, sign, validate,
}
use toyblockchain.Block.Transaction.Ownership.{IsOwned, validate_iff}

module _ (p : Platform) (d : HasDigests p) (g : HasSignatures p) where
  length-address : (key : Bytes) → length (address_from_public_key p key) ≡ 40
  unfolding address_from_public_key
  length-address key = omega (
    arith,
    length-hex_encode (take 20 (p.sha256 key)),
    length-take 20 (p.sha256 key),
    d.digest-length key,
  )

  trim_space-address :
      (key : Bytes) → trim_space (address_from_public_key p key) ≡ address_from_public_key p key
  unfolding address_from_public_key
  trim_space-address key =
      trim_space-hex_encode _ (All-take (λ b. b < 256) 20 (p.sha256 key) (d.digest-IsBytes key))

  not_empty : (s : Bytes) → 0 < length s → is_empty s ≡ false
  not_empty [] h = absurd (omega arith)
  not_empty (b ∷ s) h = refl

  -- The transaction that `Sign` returns.
  abbrev signed : Transaction → Bytes → Transaction
  signed t key = record (claim_sender p t (ed25519_public key)) {
    signature =
        hex_encode (p.ed25519_sign key (signing_bytes p (claim_sender p t (ed25519_public key))));
  }

  -- With a key that Ed25519 has made, the signed transaction is owned.
  IsOwned-signed : (seed : Bytes) (t : Transaction) → IsOwned p (signed t (p.ed25519_new_key seed))
  unfolding claim_sender signing_bytes
  IsOwned-signed seed t =
      let key = p.ed25519_new_key seed in
      let message = signing_bytes p (claim_sender p t (ed25519_public key)) in
      record {
        key = ed25519_public key;
        signature = p.ed25519_sign key message;
        key_decodes = hex_decode-hex_encode _ (All-drop (λ b. b < 256) 32 key (g.key-IsBytes seed));
        key_sized = omega (arith, length-drop 32 key, g.key-length seed);
        signature_decodes = hex_decode-hex_encode _ (g.signature-IsBytes key message);
        signature_sized = g.signature-length key message;
        owner = refl;
        verifies = g.verify-sign seed message;
      }

  pub address-ne-faucet : (key : Bytes) → address_from_public_key p key ≢ faucet_account
  address-ne-faucet key e = omega (arith, length-address key, ap (length {0}) e)

  -- Signing with a key that Ed25519 has made gives a transaction with the same recipient, amount and
  -- nonce that passes `Validate`, whatever it held before, if the amount is positive, the recipient is
  -- neither blank nor the signer and the nonce is not 0.
  pub validate-sign :
      (seed : Bytes) (t : Transaction)
      → let key = p.ed25519_new_key seed in
        pos 1 ≤ℤ t.amount
        → is_empty (trim_space t.recipient) ≡ false
        → t.recipient ≢ address_from_public_key p (ed25519_public key)
        → t.nonce ≢ 0
        → (t' : Transaction) × (sign p t key ≡ ok t')
          × (validate p t' ≡ ok tt)
          × (t'.sender ≡ address_from_public_key p (ed25519_public key))
          × (t'.recipient ≡ t.recipient)
          × (t'.amount ≡ t.amount)
          × (t'.nonce ≡ t.nonce)
  unfolding sign claim_sender
  validate-sign seed t positive named other numbered =
      let key = p.ed25519_new_key seed in
      let public = ed25519_public key in
      (
        signed t key,
        rw (g.key-length seed),
        (validate_iff p (signed t key)).1 (
          record {
            positive = positive;
            has_sender =
                rw (trim_space-address public) (not_empty _ (omega (arith, length-address public)));
            has_recipient = named;
            distinct = λ e. other (sym e);
          },
          inr (address-ne-faucet public, numbered, IsOwned-signed seed t),
        ),
        refl,
        refl,
        refl,
        refl,
      )
