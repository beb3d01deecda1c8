-- ===== src/Cli/Changes.antt =====
-- The commands that change the chain by one of its methods do what they may (cli/cli.go).
use toyblockchain.Prelude.{
  ok-inj, or_fail-ok, ◌≡◌, refl, sym, Option, none, some, List, [], ◌∷◌, Result, ok, err, >>=-eq-ok,
  wrap_err, wrap_err-ok, or_fail,
}
use toyblockchain.Prelude.Int.{ℤ}
use toyblockchain.Prelude.Bytes.{Bytes, hex_decode, parse_int}
use toyblockchain.Prelude.Dict.{lookup}
use toyblockchain.Platform.{Platform}
use toyblockchain.Block.Types.{Block}
use toyblockchain.Block.Transaction.{sign}
use toyblockchain.Ledger.{next_nonce}
use toyblockchain.Chain.Types.{Chain, ChainError}
use toyblockchain.Chain.Methods.{chain_ledger, apply_pool, add_transaction, mine_block}
use toyblockchain.Chain.Fork.{ChainJson}
use toyblockchain.Chain.Storage.{Disk}
use toyblockchain.Cli.Types.{
  queued_grant, wallet_not_found, invalid_stored_key, computing_ledger, invalid_pending,
  signing_failed, invalid_number, WalletJson, Cli, Environment, CliError, Line, Reply, answer,
  failed, settle, usage, chain_failed, faucet_rejected, transaction_rejected,
}
use toyblockchain.Cli.Run.{Command, faucet, send_transaction, mine_pending}
use toyblockchain.Cli.Effects.{CanRefuse, Explained, refused, paid, given, extended, Quiet, Signed}
use toyblockchain.Cli.Commands.{
  send, cmd_send, unsigned, queued_line, cmd_faucet, give, grant, parse_number, mined_reply,
  cmd_mine,
}
use toyblockchain.Cli.Wallets.{load_wallet_store}

pub parse_number-ok : (s : Bytes) (a : ℤ) → parse_number s ≡ ok a → parse_int s ≡ some a
parse_number-ok s a e = or_fail-ok (parse_int s) invalid_number e

module _ (p : Platform) (json : ChainJson) (wallets : WalletJson) (cli : Cli)
    (env : Environment) where
  -- The specification at these parameters.
  abbrev Meets : Command → List Bytes → Chain → Disk → Reply → Type 0
  Meets = Explained p json wallets cli env

  pub failed-Explained :
      (command : Command) (args : List Bytes) (c : Chain) (disk : Disk) (e : CliError)
      → CanRefuse p json wallets cli env command c e
      → Meets command args c disk (failed c disk e)
  failed-Explained command args c disk e can = refused e can refl refl refl

  pub settle-Explained :
      (command : Command) (args : List Bytes) (c : Chain) (disk : Disk) (x : Result CliError Reply)
      → ((e : CliError) → CanRefuse p json wallets cli env command c e)
      → ((r : Reply) → x ≡ ok r → Meets command args c disk r)
      → Meets command args c disk (settle c disk x)
  settle-Explained command args c disk (err e) can h =
      failed-Explained command args c disk e (can e)
  settle-Explained command args c disk (ok r) can h = h r refl

  pub answer-Quiet :
      (c : Chain) (disk : Disk) (lines : List Line)
      → Quiet p json wallets cli env disk (answer c disk lines)
  answer-Quiet c disk lines = record { kept = refl; done = refl }

  pub cmd_faucet-Explained :
      (c : Chain) (disk : Disk) (args : List Bytes)
      → Meets faucet args c disk (cmd_faucet p c disk args)
  unfolding cmd_faucet give
  cmd_faucet-Explained c disk (recipient ∷ text ∷ []) =
      settle-Explained faucet (recipient ∷ text ∷ []) c disk (give p c disk recipient text)
        (λ e. tt)
        (λ r e.
          let (amount, e0, e1) = >>=-eq-ok (parse_number text) _ e in
          let (longer, e2, e3) =
            >>=-eq-ok (wrap_err faucet_rejected (add_transaction p c (grant recipient amount))) _
              e1 in
          let same : answer longer disk (queued_grant recipient amount ∷ []) ≡ r = ok-inj e3 in
          rw (sym same) (
            given recipient text amount refl refl (parse_number-ok text amount e0)
              (wrap_err-ok faucet_rejected _ e2) (answer-Quiet longer disk _)))
  cmd_faucet-Explained c disk [] = failed-Explained faucet [] c disk usage tt
  cmd_faucet-Explained c disk (a ∷ []) = failed-Explained faucet (a ∷ []) c disk usage tt
  cmd_faucet-Explained c disk (a ∷ b ∷ d ∷ args) =
      failed-Explained faucet (a ∷ b ∷ d ∷ args) c disk usage tt

  send-Explained :
      (c : Chain) (disk : Disk) (name recipient text : Bytes) (r : Reply)
      → send p wallets cli env c disk name recipient text ≡ ok r
      → Meets send_transaction (name ∷ recipient ∷ text ∷ []) c disk r
  unfolding send
  send-Explained c disk name recipient text r e =
      let (amount, e0, r0) = >>=-eq-ok (parse_number text) _ e in
      let (store, e1, r1) =
        >>=-eq-ok (load_wallet_store wallets env.readable cli.wallet_file disk) _ r0 in
      let (wallet, e2, r2) = >>=-eq-ok (or_fail (lookup name store) (wallet_not_found name)) _ r1 in
      let (key, e3, r3) =
        >>=-eq-ok (or_fail (hex_decode wallet.private_key) invalid_stored_key) _ r2 in
      let (ledger, e4, r4) = >>=-eq-ok (wrap_err computing_ledger (chain_ledger p c)) _ r3 in
      let (current, e5, r5) =
        >>=-eq-ok (wrap_err invalid_pending (apply_pool p c.pending ledger)) _ r4 in
      let t0 = unsigned recipient amount (next_nonce current wallet.address) in
      let (t, e6, r6) = >>=-eq-ok (wrap_err signing_failed (sign p t0 key)) _ r5 in
      let (longer, e7, r7) =
        >>=-eq-ok (wrap_err transaction_rejected (add_transaction p c t)) _ r6 in
      let same : answer longer disk (queued_line t ∷ []) ≡ r = ok-inj r7 in
      let signed : Signed p json wallets cli env c disk name recipient amount t = record {
        store = store;
        wallet = wallet;
        key = key;
        confirmed = ledger;
        pooled = current;
        loaded = e1;
        found = or_fail-ok (lookup name store) (wallet_not_found name) e2;
        decoded = or_fail-ok (hex_decode wallet.private_key) invalid_stored_key e3;
        replayed = wrap_err-ok computing_ledger (chain_ledger p c) e4;
        applied = wrap_err-ok invalid_pending (apply_pool p c.pending ledger) e5;
        signed = wrap_err-ok signing_failed (sign p t0 key) e6;
      } in
      rw (sym same) (
        paid name recipient text amount t refl refl (parse_number-ok text amount e0) signed
          (wrap_err-ok transaction_rejected _ e7) (answer-Quiet longer disk _))

  pub cmd_send-Explained :
      (c : Chain) (disk : Disk) (args : List Bytes)
      → Meets send_transaction args c disk (cmd_send p wallets cli env c disk args)
  unfolding cmd_send
  cmd_send-Explained c disk (name ∷ recipient ∷ text ∷ []) =
      settle-Explained send_transaction (name ∷ recipient ∷ text ∷ []) c disk _ (λ e. tt)
        (send-Explained c disk name recipient text)
  cmd_send-Explained c disk [] = failed-Explained send_transaction [] c disk usage tt
  cmd_send-Explained c disk (a ∷ []) = failed-Explained send_transaction (a ∷ []) c disk usage tt
  cmd_send-Explained c disk (a ∷ b ∷ []) =
      failed-Explained send_transaction (a ∷ b ∷ []) c disk usage tt
  cmd_send-Explained c disk (a ∷ b ∷ d ∷ f ∷ args) =
      failed-Explained send_transaction (a ∷ b ∷ d ∷ f ∷ args) c disk usage tt

  pub cmd_mine-Explained :
      (args : List Bytes) (c : Chain) (disk : Disk) (r : Reply)
      → cmd_mine p cli env c disk ≡ some r
      → Meets mine_pending args c disk r
  unfolding cmd_mine mined_reply
  cmd_mine-Explained args c disk r e =
      go (mine_block p c env.clock cli.mine_limits env.cpus env.events) refl e
    where
      go :
          (o : Option (Result ChainError (Chain × Block)))
          → mine_block p c env.clock cli.mine_limits env.cpus env.events ≡ o
          → elim o [ none ↦ none | some x ↦ some (mined_reply p c disk x) ] ≡ some r
          → Meets mine_pending args c disk r
      go none f g = cc g
      go (some (err x)) f g =
          let same : failed c disk (chain_failed x) ≡ r = cc g in
          rw (sym same) (failed-Explained mine_pending args c disk (chain_failed x) (x, f, refl))
      go (some (ok (longer, b))) f g =
          let same : mined_reply p c disk (ok (longer, b)) ≡ r = cc g in
          rw (sym same) (extended b refl f (answer-Quiet longer disk _))
