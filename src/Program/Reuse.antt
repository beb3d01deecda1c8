-- ===== src/Program/Reuse.antt =====
-- A disk that a run leaves for the next one (main.go).
use toyblockchain.Prelude.{
  ◌≡◌, refl, sym, ap, ◌∙◌, true, false, Option, none, some, length, length-append, ℕ, Result, ok,
  err, Bool-cases, inl, inr, Result-cases, arith,
}
use toyblockchain.Prelude.Int64.{IsInt64}
use toyblockchain.Prelude.Bytes.{bytes_eq, bytes_eq_iff, bytes_eq_refl, codes}
use toyblockchain.Prelude.Dict.{lookup, remove, lookup-remove}
use toyblockchain.Platform.{Platform}
use toyblockchain.Chain.Types.{RetargetConfig, Chain, ChainError}
use toyblockchain.Chain.Methods.{new_with_retarget}
use toyblockchain.Chain.Validation.Exact.{validate_chain_iff}
use toyblockchain.Chain.Growth.Live.{IsLive}
use toyblockchain.Chain.Growth.Genesis.{new_with_retarget-IsLive}
use toyblockchain.Chain.Fork.{ChainJson}
use toyblockchain.Chain.Storage.{
  unreadable_file, parsing_chain, loaded_invalid, Disk, LoadError, file_not_found, save, load,
}
use toyblockchain.Chain.Storage.Atomic.{save_settles}
use toyblockchain.Cli.Types.{WalletJson, Reply}
use toyblockchain.Program.{
  Flags, Surroundings, lock_path, retarget_config, release, saved_chain, create_chain, open_chain,
  finish,
}

module _ (p : Platform) (json : ChainJson) (wallets : WalletJson) (flags : Flags)
    (around : Surroundings) where
  -- The lock file is another file than the chain file.
  lock_path-ne : bytes_eq (lock_path p json wallets flags around) flags.data_file ≡ false
  lock_path-ne =
      elim (Bool-cases (bytes_eq (lock_path p json wallets flags around) flags.data_file)) [
        | inr other ↦ other
        | inl same ↦
            let equal =
              (bytes_eq_iff (lock_path p json wallets flags around) flags.data_file).0 same in
            absurd (
              omega (
                arith,
                ap (length {0} {A = ℕ}) equal,
                length-append {0} {A = ℕ} flags.data_file (codes ".lock"),
              ))
      ]

  -- A disk from which the next run can go on: not locked, with a chain file that loads as a chain in
  -- use.
  pub record IsReusable (disk : Disk) : Type 0 where
    pub unlocked : lookup (lock_path p json wallets flags around) disk ≡ none
    pub chain : Chain
    pub live : IsLive p chain
    pub loads : load p json true flags.data_file disk ≡ ok chain

  saved-IsReusable :
      (c : Chain) (disk : Disk)
      → around.lock_removable ≡ true
      → json.unmarshal (json.marshal_indent c) ≡ ok c
      → IsLive p c
      → lookup flags.data_file disk ≡ some (json.marshal_indent c)
      → IsReusable (release p json wallets flags around disk)
  unfolding load
  saved-IsReusable c disk removable encodable live found =
      let lock = lock_path p json wallets flags around in
      let valid = (validate_chain_iff p c).1 live.valid in
      let kept : lookup flags.data_file (remove lock disk) ≡ some (json.marshal_indent c) =
        lookup-remove disk flags.data_file lock ∙ (rw lock_path-ne found) in
      rw removable (record {
        unlocked = lookup-remove disk lock lock ∙ rw (bytes_eq_refl lock) refl;
        chain = c;
        live = live;
        loads = rw (kept, encodable, valid) refl;
      })

  pub finish-IsReusable :
      (r : Reply)
      → around.lock_removable ≡ true
      → json.unmarshal (json.marshal_indent r.chain) ≡ ok r.chain
      → IsLive p r.chain
      → (finish p json wallets flags around r).result ≡ ok tt
      → IsReusable (finish p json wallets flags around r).disk
  unfolding finish
  finish-IsReusable r removable encodable live e =
      let s = save json around.save_calls r.chain flags.data_file r.disk in
      elim (Result-cases r.result) [
        | inr (x, h) ↦ absurd (ground arith)
        | inl (u, h) ↦ elim (save_settles json around.save_calls r.chain flags.data_file r.disk) [
          | inr (x, failing, _) ↦ absurd (ground arith)
          | inl (done, found, _) ↦
              rw (finish, h, done) (saved-IsReusable r.chain s.disk removable encodable live found)
        ]
      ]

  create_chain-IsLive :
      (disk disk' : Disk) (c : Chain)
      → IsInt64 flags.retarget_interval
      → create_chain p json wallets flags around disk ≡ some (disk', ok c)
      → IsLive p c
  unfolding create_chain saved_chain
  create_chain-IsLive disk disk' c interval e =
      go
        (new_with_retarget p flags.difficulty flags.max_transactions flags.mining_limits around.cpus
          around.events config)
        refl
    where
      config : RetargetConfig
      config = retarget_config p json wallets flags around

      go :
          (o : Option (Result ChainError Chain))
          → new_with_retarget p flags.difficulty flags.max_transactions flags.mining_limits
              around.cpus around.events config
            ≡ o
          → IsLive p c
      go none f = absurd (ground arith)
      go (some (err x)) f = absurd (ground arith)
      go (some (ok d)) f =
          let s = save json around.creation_calls d flags.data_file disk in
          elim (Result-cases s.result) [
            | inr (x, h) ↦ absurd (ground arith)
            | inl (u, h) ↦
                let same : d ≡ c = ground arith in
                rw (sym same)
                  (new_with_retarget-IsLive p flags.difficulty flags.max_transactions
                    flags.mining_limits around.cpus around.events config d interval f).0
          ]

  pub open_chain-IsLive :
      (disk disk' : Disk) (r : Result LoadError Chain) (c : Chain)
      → IsInt64 flags.retarget_interval
      → ((d : Chain) → r ≡ ok d → IsLive p d)
      → open_chain p json wallets flags around disk r ≡ some (disk', ok c)
      → IsLive p c
  unfolding open_chain
  open_chain-IsLive disk disk' (ok d) c interval live e =
      let same : d ≡ c = ground arith in rw (sym same) (live d refl)
  open_chain-IsLive disk disk' (err file_not_found) c interval live e =
      create_chain-IsLive disk disk' c interval e
  open_chain-IsLive disk disk' (err unreadable_file) c interval live e = cc e
  open_chain-IsLive disk disk' (err parsing_chain) c interval live e = cc e
  open_chain-IsLive disk disk' (err (loaded_invalid x)) c interval live e = cc e
