-- ===== src/Cli/Saving.antt =====
-- The commands that write a file do what they may (cli/cli.go).
use toyblockchain.Prelude.{
  arith, Option, none, Option-cases, ok-inj, inr, inl, Result-cases, ◌≡◌, refl, sym, some, List, [],
  ◌∷◌, ok, >>=-eq-ok, wrap_err, wrap_err-ok, fail_if, is_empty,
}
use mathlib.Core.Path.{subst}
use toyblockchain.Prelude.Bytes.{Bytes, trim_space}
use toyblockchain.Platform.{Platform}
use toyblockchain.Chain.Types.{Chain}
use toyblockchain.Chain.Fork.{ForkResolutionResult, ChainJson, resolve_fork}
use toyblockchain.Chain.Storage.{Disk, Saving, SaveError, load, save}
use toyblockchain.Cli.Types.{
  WalletStore, Wallet, CliError, chain_saved, WalletJson, Cli, Environment, Line, empty_wallet_name,
  wallet_created, Reply, usage, fork_failed, loading_candidate, saving_resolved, saving_wallets,
  saving_chain, fork_resolved,
}
use toyblockchain.Prelude.Dict.{lookup, insert}
use toyblockchain.Cli.Wallets.{
  create_wallet, stored, load_wallet_store, save_wallet_store, check_unused, generate_key,
  wallet_of_key, cmd_wallet_create,
}
use toyblockchain.Cli.Commands.{cmd_save, saved, replace_chain, cmd_resolve_fork}
use toyblockchain.Cli.Run.{Command, wallet_create, resolvefork, save_now}
use toyblockchain.Cli.Effects.{wallet_saving, Explained, replaced, recorded, written, Ends}
use toyblockchain.Cli.Changes.{failed-Explained, settle-Explained}

module _ (p : Platform) (json : ChainJson) (wallets : WalletJson) (cli : Cli)
    (env : Environment) where
  -- The specification at these parameters.
  abbrev Meets : Command → List Bytes → Chain → Disk → Reply → Type 0
  Meets = Explained p json wallets cli env

  saved-Ends :
      (c : Chain) (s : Saving) (failure : SaveError → CliError) (line : Line)
      → Ends (saved c s failure line) s failure × ((saved c s failure line).chain ≡ c)
  unfolding saved
  saved-Ends c s failure line = elim (Result-cases s.result) [
    | inl (u, e) ↦ rw e (record { left = refl; result = refl }, refl)
    | inr (x, e) ↦ rw e (record { left = refl; result = refl }, refl)
  ]

  stored-Ends :
      (c : Chain) (s : Saving) (line : Line)
      → Ends (stored c s line) s saving_wallets × ((stored c s line).chain ≡ c)
  unfolding stored
  stored-Ends c s line = elim (Result-cases s.result) [
    | inl (u, e) ↦ rw e (record { left = refl; result = refl }, refl)
    | inr (x, e) ↦ rw e (record { left = refl; result = refl }, refl)
  ]

  adopted-Explained :
      (c adopted d : Chain) (disk : Disk) (path : Bytes) (report : ForkResolutionResult)
      → load p json env.readable path disk ≡ ok d
      → resolve_fork p json c d ≡ ok (adopted, report)
      → Meets resolvefork (path ∷ []) c disk (
          saved adopted
            (save json env.calls adopted cli.data_file disk)
            saving_resolved
            (fork_resolved report))
  adopted-Explained c adopted d disk path report loaded resolved =
      let saving = save json env.calls adopted cli.data_file disk in
      let reply = saved adopted saving saving_resolved (fork_resolved report) in
      let (ends, chain) = saved-Ends adopted saving saving_resolved (fork_resolved report) in
      replaced path d report refl refl loaded
        (subst (λ (x : Chain). resolve_fork p json c d ≡ ok (x, report)) (sym chain) resolved)
        (subst
          (λ (x : Chain). Ends reply (save json env.calls x cli.data_file disk) saving_resolved)
          (sym chain) ends)

  replace_chain-Explained :
      (c : Chain) (disk : Disk) (path : Bytes) (r : Reply)
      → replace_chain p json cli env c disk path ≡ ok r
      → Meets resolvefork (path ∷ []) c disk r
  unfolding replace_chain
  replace_chain-Explained c disk path r e =
      let (d, e0, r0) =
        >>=-eq-ok (wrap_err loading_candidate (load p json env.readable path disk)) _ e in
      let ((adopted, report), e1, r1) =
        >>=-eq-ok (wrap_err fork_failed (resolve_fork p json c d)) _ r0 in
      rw (sym (ok-inj r1)) (
        adopted-Explained c adopted d disk path report (wrap_err-ok loading_candidate _ e0)
          (wrap_err-ok fork_failed _ e1))

  pub cmd_resolve_fork-Explained :
      (c : Chain) (disk : Disk) (args : List Bytes)
      → Meets resolvefork args c disk (cmd_resolve_fork p json cli env c disk args)
  unfolding cmd_resolve_fork
  cmd_resolve_fork-Explained c disk (path ∷ []) =
      settle-Explained p json wallets cli env resolvefork (path ∷ []) c disk _ (λ e. tt)
        (replace_chain-Explained c disk path)
  cmd_resolve_fork-Explained c disk [] =
      failed-Explained p json wallets cli env resolvefork [] c disk usage tt
  cmd_resolve_fork-Explained c disk (a ∷ b ∷ args) =
      failed-Explained p json wallets cli env resolvefork (a ∷ b ∷ args) c disk usage tt

  pub cmd_save-Explained :
      (args : List Bytes) (c : Chain) (disk : Disk)
      → Meets save_now args c disk (cmd_save p json cli env c disk)
  unfolding cmd_save
  cmd_save-Explained args c disk =
      let (ends, chain) =
        saved-Ends c (save json env.calls c cli.data_file disk) saving_chain
          (chain_saved cli.data_file) in
      written refl chain ends

  generate_key-ok :
      (key : Bytes)
      → generate_key p wallets cli env ≡ ok key
      → (seed : Bytes) × (env.random ≡ some seed) × (key ≡ p.ed25519_new_key seed)
  generate_key-ok key e = elim (Option-cases env.random) [
    | inl h ↦ absurd (ground arith)
    | inr (seed, h) ↦ (seed, h, ground arith)
  ]

  check_unused-ok :
      (name : Bytes) (o : Option Wallet) {u : Unit {0}} → check_unused name o ≡ ok u → o ≡ none
  check_unused-ok name none e = refl
  check_unused-ok name (some wallet) e = cc e

  -- the end of `wallet-create`
  abbrev created : Chain → Disk → Bytes → WalletStore → Bytes → Reply
  created c disk name store key =
      let wallet = wallet_of_key p wallets cli env key in
      let longer = insert (trim_space name) wallet store in
      stored c (save_wallet_store wallets env.calls longer cli.wallet_file disk)
        (wallet_created (trim_space name) wallet.address)

  created-Explained :
      (c : Chain) (disk : Disk) (name key : Bytes) (store : WalletStore)
      → load_wallet_store wallets env.readable cli.wallet_file disk ≡ ok store
      → lookup (trim_space name) store ≡ none
      → generate_key p wallets cli env ≡ ok key
      → Meets wallet_create (name ∷ []) c disk (created c disk name store key)
  created-Explained c disk name key store loaded unused generated =
      let (seed, random, same) = generate_key-ok key generated in
      let wallet = wallet_of_key p wallets cli env (p.ed25519_new_key seed) in
      let (ends, chain) =
        stored-Ends c (wallet_saving p json wallets cli env name seed store disk)
          (wallet_created (trim_space name) wallet.address) in
      subst (λ (k : Bytes). Meets wallet_create (name ∷ []) c disk (created c disk name store k))
        (sym same) (recorded name seed store refl refl loaded unused random chain ends)

  create_wallet-Explained :
      (c : Chain) (disk : Disk) (name : Bytes) (r : Reply)
      → create_wallet p wallets cli env c disk (trim_space name) ≡ ok r
      → Meets wallet_create (name ∷ []) c disk r
  unfolding create_wallet
  create_wallet-Explained c disk name r e =
      let trimmed = trim_space name in
      let (u, e0, r0) = >>=-eq-ok (fail_if (is_empty trimmed) empty_wallet_name) _ e in
      let (store, e1, r1) =
        >>=-eq-ok (load_wallet_store wallets env.readable cli.wallet_file disk) _ r0 in
      let (v, e2, r2) = >>=-eq-ok (check_unused trimmed (lookup trimmed store)) _ r1 in
      let (key, e3, r3) = >>=-eq-ok (generate_key p wallets cli env) _ r2 in
      rw (sym (ok-inj r3)) (
        created-Explained c disk name key store e1
          (check_unused-ok trimmed (lookup trimmed store) e2) e3)

  pub cmd_wallet_create-Explained :
      (c : Chain) (disk : Disk) (args : List Bytes)
      → Meets wallet_create args c disk (cmd_wallet_create p wallets cli env c disk args)
  unfolding cmd_wallet_create
  cmd_wallet_create-Explained c disk (name ∷ []) =
      settle-Explained p json wallets cli env wallet_create (name ∷ []) c disk _ (λ e. tt)
        (create_wallet-Explained c disk name)
  cmd_wallet_create-Explained c disk [] =
      failed-Explained p json wallets cli env wallet_create [] c disk usage tt
  cmd_wallet_create-Explained c disk (a ∷ b ∷ args) =
      failed-Explained p json wallets cli env wallet_create (a ∷ b ∷ args) c disk usage tt
