-- ===== src/Program/Persistence.antt =====
-- What a successful run leaves on the disk (main.go).
use toyblockchain.Program.Reuse.{IsReusable, finish-IsReusable, open_chain-IsLive}
use toyblockchain.Prelude.{
  Option-cases, ◌≡◌, refl, sym, true, false, Option, none, some, List, ◌∷◌, Result, ok, err,
  Bool-cases, inl, inr, Result-cases, arith,
}
use toyblockchain.Prelude.Int.{ltb_ℤ, pos}
use toyblockchain.Prelude.Int64.{IsInt64}
use toyblockchain.Prelude.Bytes.{Bytes}
use toyblockchain.Prelude.Dict.{insert}
use toyblockchain.Platform.{Platform}
use toyblockchain.Chain.Types.{Chain}
use toyblockchain.Chain.Retarget.{validate_config}
use toyblockchain.Chain.Growth.Live.{IsLive}
use toyblockchain.Chain.Fork.{ChainJson}
use toyblockchain.Chain.Lock.{LockError, acquire_file_lock}
use toyblockchain.Chain.Storage.{Disk, load}
use toyblockchain.Cli.Types.{Cli, WalletJson, Reply}
use toyblockchain.Cli.Run.{run}
use toyblockchain.Cli.Live.{HasChainCodec, IsReady, run-IsLive}
use toyblockchain.Program.{
  Flags, Surroundings, Exit, MainError, lock_path, retarget_config, application, lock_attempts,
  open_chain, finish, work_on, with_lock, main,
}

module _ (p : Platform) (json : ChainJson) (wallets : WalletJson) (flags : Flags)
    (around : Surroundings) where
  -- What the disk is while a run holds the lock, and the chain that it works on then.
  abbrev pub locked : Disk → Disk
  locked disk = insert (lock_path p json wallets flags around) around.pid_text disk

  abbrev pub Opens : Disk → Disk → Chain → Type 0
  Opens disk disk' c =
      open_chain p json wallets flags around (locked disk)
        (load p json around.readable flags.data_file (locked disk))
      ≡ some (disk', ok c)

  -- Conditions on the chain that is worked on: it is ready for the command, and what the command makes
  -- of it survives encoding.
  pub record CanRun (args : List Bytes) (c : Chain) (disk : Disk) : Type 0 where
    pub ready : IsReady (application p json wallets flags around) around.command c
    pub encodable :
        (r : Reply)
        → run p json wallets (application p json wallets flags around) around.command c disk args
          ≡ some r
        → json.unmarshal (json.marshal_indent r.chain) ≡ ok r.chain

  work_on-IsReusable :
      (codec : HasChainCodec json) (name : Bytes) (args : List Bytes) (disk : Disk) (c : Chain)
      (x : Exit)
      → around.lock_removable ≡ true
      → IsLive p c
      → CanRun (name ∷ args) c disk
      → work_on p json wallets flags around (name ∷ args) disk c ≡ some x
      → x.result ≡ ok tt
      → IsReusable p json wallets flags around x.disk
  unfolding work_on
  work_on-IsReusable codec name args disk c x removable live can e done =
      elim (Option-cases (run p json wallets cli around.command c disk (name ∷ args))) [
        | inl f ↦ absurd (ground arith)
        | inr (r, f) ↦
            let kept =
              run-IsLive p json codec cli wallets around.command c disk (name ∷ args) r live
                can.ready f in
            let same : finish p json wallets flags around r ≡ x = ground arith in
            let finished : (finish p json wallets flags around r).result ≡ ok tt = rw same done in
            rw (sym same) (
              finish-IsReusable p json wallets flags around r removable (can.encodable r f) kept
                finished)
      ]
    where
      cli : Cli
      cli = application p json wallets flags around

  with_lock-IsReusable :
      (codec : HasChainCodec json) (name : Bytes) (args : List Bytes) (disk : Disk) (x : Exit)
      → around.lock_removable ≡ true
      → IsInt64 flags.retarget_interval
      → ((c : Chain)
          → load p json around.readable flags.data_file (locked disk) ≡ ok c
          → IsLive p c)
      → ((disk' : Disk) (c : Chain) → Opens disk disk' c → CanRun (name ∷ args) c disk')
      → with_lock p json wallets flags around (name ∷ args) (locked disk) ≡ some x
      → x.result ≡ ok tt
      → IsReusable p json wallets flags around x.disk
  unfolding with_lock
  with_lock-IsReusable codec name args disk x removable interval live can e done =
      elim (Bool-cases (ltb_ℤ flags.target_block_time (pos 1000000000))) [
        | inl short ↦ absurd (ground arith)
        | inr long ↦
            elim (Result-cases (validate_config (retarget_config p json wallets flags around))) [
              | inr (y, bad) ↦ absurd (ground arith)
              | inl (u, good) ↦
                  opened
                    (open_chain p json wallets flags around (locked disk)
                      (load p json around.readable flags.data_file (locked disk)))
                    refl long good
            ]
      ]
    where
      opened :
          (o : Option (Disk × Result MainError Chain))
          → open_chain p json wallets flags around
              (locked disk)
              (load p json around.readable flags.data_file (locked disk))
            ≡ o
          → ltb_ℤ flags.target_block_time (pos 1000000000) ≡ false
          → validate_config (retarget_config p json wallets flags around) ≡ ok tt
          → IsReusable p json wallets flags around x.disk
      opened none f long good = absurd (ground arith)
      opened (some (disk', err y)) f long good = absurd (ground arith)
      opened (some (disk', ok c)) f long good =
          work_on-IsReusable codec name args disk' c x removable
            (open_chain-IsLive p json wallets flags around (locked disk) disk' _ c interval live f)
            (can disk' c f) (ground arith) done

  -- A run of a command that ends without an error leaves the disk for the next one: the lock file is
  -- gone, and the chain file loads as a chain in use. It is assumed that the lock file can be removed,
  -- that a chain file that is there loads as a chain in use, that the chain is ready for the command,
  -- and that what the command makes of it survives encoding.
  pub main-IsReusable :
      (codec : HasChainCodec json) (name : Bytes) (args : List Bytes) (disk : Disk) (x : Exit)
      → around.lock_removable ≡ true
      → IsInt64 flags.retarget_interval
      → ((c : Chain)
          → load p json around.readable flags.data_file (locked disk) ≡ ok c
          → IsLive p c)
      → ((disk' : Disk) (c : Chain) → Opens disk disk' c → CanRun (name ∷ args) c disk')
      → main p json wallets flags around (name ∷ args) disk ≡ some x
      → x.result ≡ ok tt
      → IsReusable p json wallets flags around x.disk
  unfolding main
  main-IsReusable codec name args disk x removable interval live can e done =
      elim (Bool-cases around.mkdir_all) [
        | inr no_directory ↦ absurd (ground arith)
        | inl made ↦
            acquired
              (acquire_file_lock around.lock_start flags.lock_timeout
                (lock_attempts p json wallets flags around disk))
              refl made
      ]
    where
      acquired :
          (o : Option (Result LockError (Unit {0})))
          → acquire_file_lock around.lock_start flags.lock_timeout
              (lock_attempts p json wallets flags around disk)
            ≡ o
          → around.mkdir_all ≡ true
          → IsReusable p json wallets flags around x.disk
      acquired none f made = absurd (ground arith)
      acquired (some (err y)) f made = absurd (ground arith)
      acquired (some (ok u)) f made =
          with_lock-IsReusable codec name args disk x removable interval live can (ground arith)
            done
