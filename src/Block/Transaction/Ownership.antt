-- ===== src/Block/Transaction/Ownership.antt =====
-- Exactly which transactions pass `VerifySignature` and `Validate`.
use toyblockchain.Prelude.{
  >>=-eq-ok, ℕ, ◌≡◌, ◌≢◌, refl, ◌↔◌, ◌⊎◌, inl, inr, true, false, Bool-cases, some, Option-cases, [],
  ◌∷◌, arith, length, ok,
}
use toyblockchain.Prelude.Int.{pos, ◌≤ℤ◌}
use toyblockchain.Prelude.Bytes.{Bytes, bytes_eq, bytes_eq_iff, hex_decode, trim_space}
use toyblockchain.Platform.{Platform}
use toyblockchain.Block.Types.{Transaction, faucet_account}
use toyblockchain.Block.Transaction.{
  invalid_signature_encoding, invalid_public_key, TransactionError, is_empty, public_key_size,
  signature_size, decode_sized, signing_bytes, address_from_public_key, verify_faucet,
  verify_signed, verify_signature, validate,
}

decode_sized-ok :
    (size : ℕ) (s : Bytes) {b : Bytes} (e : TransactionError)
    → decode_sized size s e ≡ ok b
    → (hex_decode s ≡ some b) × (length b ≡ size)
unfolding decode_sized
decode_sized-ok size s e h = elim (Option-cases (hex_decode s)) [
  | inl none_there ↦ ground arith
  | inr (x, there) ↦ ground arith
]

decode_sized-some :
    (size : ℕ) (s : Bytes) {b : Bytes} (e : TransactionError)
    → hex_decode s ≡ some b
    → length b ≡ size
    → decode_sized size s e ≡ ok b
unfolding decode_sized
decode_sized-some size s e h k = ground arith

module _ (p : Platform) where
  -- The sender's address is that of a public key, and the signature verifies under that key.
  pub record IsOwned (t : Transaction) : Type 0 where
    pub key : Bytes
    pub signature : Bytes
    pub key_decodes : hex_decode t.public_key ≡ some key
    pub key_sized : length key ≡ 32
    pub signature_decodes : hex_decode t.signature ≡ some signature
    pub signature_sized : length signature ≡ 64
    pub owner : address_from_public_key p key ≡ t.sender
    pub verifies : p.ed25519_verify key (signing_bytes p t) signature ≡ true

  verify_signed-IsOwned : (t : Transaction) → verify_signed p t ≡ ok tt → IsOwned t
  unfolding verify_signed
  verify_signed-IsOwned t h =
      let (key, k, h') =
        >>=-eq-ok (decode_sized public_key_size t.public_key invalid_public_key) _ h in
      let (signature, s, h'') =
        >>=-eq-ok (decode_sized signature_size t.signature invalid_signature_encoding) _ h' in
      let (kd, ks) = decode_sized-ok 32 t.public_key invalid_public_key k in
      let (sd, ss) = decode_sized-ok 64 t.signature invalid_signature_encoding s in
      record {
        key = key;
        signature = signature;
        key_decodes = kd;
        key_sized = ks;
        signature_decodes = sd;
        signature_sized = ss;
        owner = (bytes_eq_iff _ _).0 (ground arith);
        verifies = ground arith;
      }

  IsOwned-verify_signed : (t : Transaction) → IsOwned t → verify_signed p t ≡ ok tt
  unfolding verify_signed
  IsOwned-verify_signed t o = rw (
    decode_sized-some 32 t.public_key invalid_public_key o.key_decodes o.key_sized,
    decode_sized-some 64 t.signature invalid_signature_encoding o.signature_decodes
        o.signature_sized,
    (bytes_eq_iff _ _).1 o.owner,
    o.verifies,
  )

  -- A transaction of a sender other than the faucet passes `VerifySignature` exactly when it is owned:
  -- its public key and signature decode to 32 and 64 bytes, the key hashes to the sender's address and
  -- the signature of the sender, recipient, amount and nonce verifies under it.
  pub verify_signature_iff :
      (t : Transaction)
      → bytes_eq t.sender faucet_account ≡ false
      → (verify_signature p t ≡ ok tt) ↔ IsOwned t
  unfolding verify_signature
  verify_signature_iff t signed = rw signed (verify_signed-IsOwned t, IsOwned-verify_signed t)

  -- What every transaction must be.
  pub record IsWellFormed (t : Transaction) : Type 0 where
    pub positive : pos 1 ≤ℤ t.amount
    pub has_sender : is_empty (trim_space t.sender) ≡ false
    pub has_recipient : is_empty (trim_space t.recipient) ≡ false
    pub distinct : t.sender ≢ t.recipient

  -- The faucet signs nothing and numbers nothing; every other sender does both.
  abbrev pub IsAuthorised : Transaction → Type 0
  IsAuthorised t =
      ((t.sender ≡ faucet_account) × (t.nonce ≡ 0) × (t.public_key ≡ []) × (t.signature ≡ []))
      ⊎ ((t.sender ≢ faucet_account) × (t.nonce ≢ 0) × IsOwned t)

  is_empty_iff : (s : Bytes) → (is_empty s ≡ true) ↔ (s ≡ [])
  is_empty_iff [] = (λ _. refl, λ _. refl)
  is_empty_iff (b ∷ s) = (λ h. cc, λ h. cc)

  validate-IsWellFormed : (t : Transaction) → validate p t ≡ ok tt → IsWellFormed t
  unfolding validate
  validate-IsWellFormed t h = record {
    positive = ground arith;
    has_sender = ground arith;
    has_recipient = ground arith;
    distinct = λ e. ground (arith, (bytes_eq_iff t.sender t.recipient).1 e);
  }

  validate-IsAuthorised : (t : Transaction) → validate p t ≡ ok tt → IsAuthorised t
  unfolding validate verify_signature verify_faucet
  validate-IsAuthorised t h = elim (Bool-cases (bytes_eq t.sender faucet_account)) [
    | inl faucet ↦ inl (
      (bytes_eq_iff _ _).0 faucet,
      ground arith,
      (is_empty_iff t.public_key).0 (ground arith),
      (is_empty_iff t.signature).0 (ground arith),
    )
    | inr signed ↦ inr (
      λ e. ground (arith, (bytes_eq_iff t.sender faucet_account).1 e),
      ground arith,
      verify_signed-IsOwned t (ground arith),
    )
  ]

  pub bytes_eq_of_ne : (s t : Bytes) → s ≢ t → bytes_eq s t ≡ false
  bytes_eq_of_ne s t h = elim (Bool-cases (bytes_eq s t)) [
    | inl same ↦ absurd (h ((bytes_eq_iff s t).0 same))
    | inr other ↦ other
  ]

  IsAuthorised-validate : (t : Transaction) → IsWellFormed t → IsAuthorised t → validate p t ≡ ok tt
  unfolding validate verify_signature verify_faucet
  IsAuthorised-validate t w (inl (faucet, zero_nonce, no_key, no_signature)) = ground (
    arith,
    bytes_eq_of_ne t.sender t.recipient w.distinct,
    (bytes_eq_iff t.sender faucet_account).1 faucet,
    w.positive,
    w.has_sender,
    w.has_recipient,
  )
  IsAuthorised-validate t w (inr (signed, numbered, owned)) = ground (
    arith,
    bytes_eq_of_ne t.sender t.recipient w.distinct,
    bytes_eq_of_ne t.sender faucet_account signed,
    IsOwned-verify_signed t owned,
    w.positive,
    w.has_sender,
    w.has_recipient,
  )

  -- `Validate` passes exactly the transactions with a positive amount and two different parties that
  -- are not blank, and that are either unsigned faucet grants with nonce 0 or owned by their sender
  -- and numbered from 1.
  pub validate_iff : (t : Transaction) → (validate p t ≡ ok tt) ↔ (IsWellFormed t × IsAuthorised t)
  validate_iff t = (
    λ h. (validate-IsWellFormed t h, validate-IsAuthorised t h),
    λ (w, a). IsAuthorised-validate t w a,
  )
