-- ===== src/Cli/Wallets/Created.antt =====
-- What `wallet-create` leaves in the wallet file (cli/cli.go).
use toyblockchain.Prelude.{
  ◌>>◌, ◌≡◌, refl, ◌∙◌, ◌⊎◌, inl, inr, Bool, true, false, Option, none, some, [], ◌∷◌, take, not,
  is_empty, if_both, Result, ok, err, fail_if, Result-cases, arith,
}
use toyblockchain.Prelude.Bytes.{Bytes, bytes_eq, bytes_eq_refl, trim_space}
use toyblockchain.Prelude.Dict.{lookup, insert, remove, lookup-insert}
use toyblockchain.Platform.{Platform}
use toyblockchain.Chain.Types.{Chain}
use toyblockchain.Chain.Storage.{
  Disk, SaveError, SaveCalls, Saving, temporary, give_up, creating_directory, creating_temporary,
  writing_temporary, replacing_file,
}
use toyblockchain.Chain.Storage.Atomic.{
  temporary-ne, IsOldOrNew, insert-IsOldOrNew, renamed-IsOldOrNew,
}
use toyblockchain.Cli.Types.{
  Wallet, WalletStore, WalletJson, Cli, Environment, Line, Reply, settle, empty_wallet_name,
  wallet_created,
}
use toyblockchain.Cli.Wallets.{
  read_wallets, load_wallet_store, save_wallet_text, save_wallet_store, stored, wallet_of_key,
  check_unused, create_wallet, cmd_wallet_create,
}

-- The end of a `save`: without an error the file has the text, with one it is as before; other files
-- but the temporary one are as before.
abbrev Ends : Bytes → Bytes → Disk → Disk → Result SaveError (Unit {0}) → Type 0
Ends path text disk d r =
    IsOldOrNew path text disk d
    × (((r ≡ ok tt) × (lookup path d ≡ some text))
        ⊎ ((e : SaveError) × (r ≡ err e) × (lookup path d ≡ lookup path disk)))

leave-Ends :
    (path text t : Bytes) (disk : Disk) (e : SaveError)
    → Ends path text disk (insert (temporary path) t disk) (err e)
leave-Ends path text t disk e = (
  insert-IsOldOrNew path text t disk,
  inr (e, refl, lookup-insert disk path (temporary path) t ∙ rw (temporary-ne path) refl),
)

pub save_wallet_text-Ends :
    (calls : SaveCalls) (text path : Bytes) (disk : Disk)
    → let s = save_wallet_text calls text path disk in Ends path text disk s.disk s.result
unfolding save_wallet_text give_up
save_wallet_text-Ends calls text path disk =
    let P : Saving → Type 0 = λ s. Ends path text disk s.disk s.result in
    let early : (e : SaveError) → P (give_up disk e) =
      λ e. ((inl refl, λ q f g. refl), inr (e, refl, refl)) in
    let torn = leave-Ends path text (take calls.written text) disk in
    let whole = leave-Ends path text text disk in
    if_both P (not calls.mkdir_all) _ _ (early creating_directory) (
      if_both P (not calls.open_file) _ _ (early creating_temporary) (
        if_both P (not calls.write) _ _ (torn writing_temporary) (
          if_both P (not calls.close) _ _ (whole writing_temporary) (
            if_both P (not calls.rename) _ _ (whole replacing_file) (
              renamed-IsOldOrNew path text disk,
              inl (
                refl,
                lookup-insert (remove (temporary path) disk) path path text
                    ∙ rw (bytes_eq_refl path) refl,
              ),
            )))))

stored-disk : (c : Chain) (s : Saving) (line : Line) → (stored c s line).disk ≡ s.disk
unfolding stored
stored-disk c s line = elim (Result-cases s.result) [
  | inl (u, e) ↦ rw e refl
  | inr (x, e) ↦ rw e refl
]

stored-ok :
    (c : Chain) (s : Saving) (line : Line) → (stored c s line).result ≡ ok tt → s.result ≡ ok tt
unfolding stored
stored-ok c s line h = elim (Result-cases s.result) [
  | inl (u, e) ↦ e
  | inr (x, e) ↦ absurd (ground arith)
]

module _ (p : Platform) (json : WalletJson) (cli : Cli) (env : Environment) where
  -- A store that is read back with the same wallets under the same names.
  pub record IsStorable (store : WalletStore) : Type 0 where
    pub restored : WalletStore
    pub decodes : json.unmarshal (json.marshal_indent store) ≡ ok restored
    pub same : (name : Bytes) → lookup name restored ≡ lookup name store

  -- The wallet that `wallet-create` makes of what it reads.
  abbrev pub new_wallet : Bytes → Wallet
  new_wallet seed = wallet_of_key p json cli env (p.ed25519_new_key seed)

  create_wallet-run :
      (c : Chain) (disk : Disk) (name seed : Bytes) (store : WalletStore)
      → load_wallet_store json env.readable cli.wallet_file disk ≡ ok store
      → env.random ≡ some seed
      → (settle c disk (create_wallet p json cli env c disk name)).result ≡ ok tt
      → let s =
          save_wallet_store json env.calls
            (insert name (new_wallet seed) store)
            cli.wallet_file
            disk in
        (lookup name store ≡ none)
        × (s.result ≡ ok tt)
        × ((settle c disk (create_wallet p json cli env c disk name)).disk ≡ s.disk)
  unfolding create_wallet stored
  create_wallet-run c disk name seed store loaded random e =
      let wallet = new_wallet seed in
      let s = save_wallet_store json env.calls (insert name wallet store) cli.wallet_file disk in
      let reply = stored c s (wallet_created name wallet.address) in
      let run : create_wallet p json cli env c disk name ≡ (
          fail_if (is_empty name) empty_wallet_name
          >> (check_unused name (lookup name store) >> ok reply)) =
        rw (loaded, random) refl in
      let (unused, done, left) = go reply (is_empty name) (lookup name store) (rw (← run) e) in
      (
        unused,
        stored-ok c s (wallet_created name wallet.address) done,
        rw run left ∙ stored-disk c s (wallet_created name wallet.address),
      )
    where
      go :
          (reply : Reply) (b : Bool) (o : Option Wallet)
          → let q =
              settle c disk (fail_if b empty_wallet_name >> (check_unused name o >> ok reply)) in
            q.result ≡ ok tt → (o ≡ none) × (reply.result ≡ ok tt) × (q.disk ≡ reply.disk)
      go reply true o h = cc h
      go reply false (some w) h = cc h
      go reply false none h = (refl, h, refl)

  -- `wallet-create` overwrites no wallet: where it succeeds, the trimmed name was not in the store. What
  -- it has written is read back, if the store survives encoding, as the same wallets and, under the
  -- name, the new one, whose address is that of its key.
  pub cmd_wallet_create-stores :
      (c : Chain) (disk : Disk) (name seed : Bytes) (store : WalletStore)
      → load_wallet_store json env.readable cli.wallet_file disk ≡ ok store
      → env.random ≡ some seed
      → IsStorable (insert (trim_space name) (new_wallet seed) store)
      → let r = cmd_wallet_create p json cli env c disk (name ∷ []) in
        r.result ≡ ok tt
        → (after : WalletStore) × (load_wallet_store json true cli.wallet_file r.disk ≡ ok after)
          × (lookup (trim_space name) store ≡ none)
          × (lookup (trim_space name) after ≡ some (new_wallet seed))
          × ((other : Bytes)
              → bytes_eq (trim_space name) other ≡ false
              → lookup other after ≡ lookup other store)
  unfolding cmd_wallet_create load_wallet_store save_wallet_store read_wallets
  cmd_wallet_create-stores c disk name seed store loaded random storable done =
      let trimmed = trim_space name in
      let longer = insert trimmed (new_wallet seed) store in
      let text = json.marshal_indent longer in
      let (unused, finished, left) =
        create_wallet-run c disk trimmed seed store loaded random done in
      elim (save_wallet_text-Ends env.calls text cli.wallet_file disk).1 [
        | inr (x, failing, _) ↦ absurd (ground arith)
        | inl (_, found) ↦ (
          storable.restored,
          rw (left, found, storable.decodes) refl,
          unused,
          storable.same trimmed
              ∙ (lookup-insert store trimmed trimmed (new_wallet seed)
                  ∙ rw (bytes_eq_refl trimmed) refl),
          λ other e.
              storable.same other
              ∙ (lookup-insert store other trimmed (new_wallet seed) ∙ rw e refl),
        )
      ]
