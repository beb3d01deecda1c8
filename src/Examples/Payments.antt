-- ===== src/Examples/Payments.antt =====
-- Wallets that are made and that pay.
use toyblockchain.Prelude.{
  ◌+◌, ◌≡◌, refl, [], ◌∷◌, ◌++◌, true, false, none, some, arith, ok, sym, ◌∙◌, ok-inj,
}
use toyblockchain.Prelude.Int.{pos, ◌+ℤ◌}
use toyblockchain.Prelude.Int64.{add64}
use toyblockchain.Prelude.Bytes.{Bytes, bytes_eq, codes, hex_encode, parse_int, trim_space}
use toyblockchain.Prelude.Dict.{lookup, insert, index}
use toyblockchain.Block.Types.{Transaction}
use toyblockchain.Block.Transaction.{
  validate, verify_signature, verify_faucet, address_from_public_key,
}
use toyblockchain.Ledger.{
  replay, apply_block, apply_from, apply, validate_transaction, new, transfer, last_nonce, balance,
  credit, rebuild,
}
use toyblockchain.Chain.Types.{Chain}
use toyblockchain.Chain.Methods.{chain_ledger, add_transaction, apply_pool}
use toyblockchain.Chain.Growth.Live.{IsLive, add_transaction-IsLive}
use toyblockchain.Cli.Types.{WalletStore}
use toyblockchain.Cli.Wallets.{
  load_wallet_store, read_wallets, cmd_wallet_create, create_wallet, stored, save_wallet_store,
  save_wallet_text,
}
use toyblockchain.Cli.Wallets.Created.{IsStorable, cmd_wallet_create-stores}
use toyblockchain.Cli.Commands.{cmd_send}
use toyblockchain.Cli.Paying.{CanPay, cmd_send-accepts}
use toyblockchain.Examples.Toy.{toy, toy-HasDigests, toy-HasSignatures, bob, grant}
use toyblockchain.Examples.Chains.{fresh, fresh-IsLive}
use toyblockchain.Examples.Commands.{
  cli, env, alice, alice_seed, alice_wallet, carol_wallet, one_wallet, two_wallets, toy_wallets,
  disk,
}

abbrev funded : Chain
funded = record fresh { pending = grant alice 9 ∷ [] }

grant-funded : add_transaction toy fresh (grant alice 9) ≡ ok funded
unfolding add_transaction chain_ledger rebuild replay apply_block apply_from apply_pool
    validate_transaction validate trim_space address_from_public_key hex_encode bytes_eq
    verify_signature verify_faucet
grant-funded = refl

funded-IsLive : IsLive toy funded
funded-IsLive =
    (add_transaction-IsLive toy fresh funded (grant alice 9) fresh-IsLive.0 grant-funded).0

genesis-replayed : rebuild toy funded.blocks ≡ ok new
unfolding rebuild replay apply_block apply_from
genesis-replayed = refl

pool-replayed : apply_pool toy funded.pending new ≡ ok (transfer new (grant alice 9))
unfolding apply_pool apply validate_transaction validate trim_space address_from_public_key
    hex_encode bytes_eq verify_signature verify_faucet
pool-replayed = refl

funded-pooled : funded-IsLive.pooled ≡ transfer new (grant alice 9)
funded-pooled =
    let final : funded-IsLive.valid.final ≡ new =
      ok-inj (sym funded-IsLive.valid.replayed ∙ genesis-replayed) in
    ok-inj (sym funded-IsLive.replayable ∙ (rw final pool-replayed))

wallets-loaded : load_wallet_store toy_wallets true (codes "w") disk ≡ ok one_wallet
unfolding load_wallet_store read_wallets lookup bytes_eq
wallets-loaded = refl

can-pay : CanPay toy toy-HasDigests toy-HasSignatures funded-IsLive.pooled alice_seed bob (pos 4)
unfolding balance last_nonce transfer credit index insert bytes_eq add64 ◌+ℤ◌
    address_from_public_key hex_encode trim_space
can-pay = rw funded-pooled (record {
  positive = omega arith;
  named = refl;
  other = λ e. cc e;
  funds = omega arith;
  numbers = omega arith;
})

alice-found : lookup (codes "alice") one_wallet ≡ some alice_wallet
unfolding lookup bytes_eq
alice-found = refl

four-parsed : parse_int (codes "4") ≡ some (pos 4)
unfolding parse_int
four-parsed = refl

send_example :
    let r = cmd_send toy toy_wallets cli env funded disk (codes "alice" ∷ bob ∷ codes "4" ∷ []) in
    (t : Transaction) × (r.result ≡ ok tt)
    × (r.chain ≡ record funded { pending = funded.pending ++ t ∷ [] })
    × (r.disk ≡ disk)
    × (t.sender ≡ alice)
    × (t.recipient ≡ bob)
    × (t.amount ≡ pos 4)
    × (t.nonce ≡ last_nonce funded-IsLive.pooled alice + 1)
send_example =
    cmd_send-accepts toy toy-HasDigests toy-HasSignatures toy_wallets cli env funded disk
      (codes "alice") bob (codes "4") alice_seed one_wallet (pos 4) funded-IsLive wallets-loaded
      alice-found four-parsed can-pay

carol-IsStorable :
    IsStorable toy toy_wallets cli env (insert (codes "carol") carol_wallet one_wallet)
unfolding insert bytes_eq
carol-IsStorable = record { restored = two_wallets; decodes = refl; same = λ name. refl }

carol-created :
    (cmd_wallet_create toy toy_wallets cli env fresh disk (codes " carol" ∷ [])).result ≡ ok tt
unfolding cmd_wallet_create create_wallet trim_space load_wallet_store read_wallets lookup bytes_eq
    save_wallet_store save_wallet_text stored
carol-created = refl

carol-trimmed : trim_space (codes " carol") ≡ codes "carol"
unfolding trim_space
carol-trimmed = refl

create_example :
    let r = cmd_wallet_create toy toy_wallets cli env fresh disk (codes " carol" ∷ []) in
    (after : WalletStore) × (load_wallet_store toy_wallets true (codes "w") r.disk ≡ ok after)
    × (lookup (trim_space (codes " carol")) one_wallet ≡ none)
    × (lookup (trim_space (codes " carol")) after ≡ some carol_wallet)
    × ((other : Bytes)
        → bytes_eq (trim_space (codes " carol")) other ≡ false
        → lookup other after ≡ lookup other one_wallet)
create_example =
    cmd_wallet_create-stores toy toy_wallets cli env fresh disk (codes " carol") (1 ∷ []) one_wallet
      wallets-loaded refl (rw carol-trimmed carol-IsStorable) carol-created
