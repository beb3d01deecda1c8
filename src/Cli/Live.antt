-- ===== src/Cli/Live.antt =====
-- The commands keep a chain in use (cli/cli.go, `Run` and `RunREPL`).
use toyblockchain.Prelude.{
  ◌+◌, ◌<◌, ◌^◌, Bool, ◌≡◌, refl, sym, some, List, [], ◌∷◌, ok, >>=-eq-ok, ok-inj, arith, wrap_err,
  wrap_err-ok, or_fail, fail_if, is_empty, length, not, Option-cases, if_both, inl, inr,
}
use toyblockchain.Prelude.Int.{◌≤ℤ◌}
use toyblockchain.Prelude.Int64.{IsInt64}
use toyblockchain.Prelude.Bytes.{parse_int-IsInt64, Bytes, fields, trim_space}
use toyblockchain.Prelude.Dict.{lookup}
use toyblockchain.Platform.{Platform}
use toyblockchain.Block.Types.{Block}
use toyblockchain.Block.Mine.{worker_count}
use toyblockchain.Chain.Types.{Chain, last_block}
use toyblockchain.Chain.Validation.{validate_chain}
use toyblockchain.Chain.Fork.{ChainJson}
use toyblockchain.Chain.Fork.Choice.{resolve_fork-IsLive, latest-ok}
use toyblockchain.Chain.Growth.Live.{IsLive, add_transaction-IsLive, mine_block-IsLive}
use toyblockchain.Chain.Growth.Policy.{set_difficulty-IsLive, configure_retarget-IsLive}
use toyblockchain.Chain.Storage.{
  Disk, load, loaded_invalid, file_not_found, unreadable_file, parsing_chain,
}
use toyblockchain.Cli.Types.{WalletJson, Cli, Environment, Reply, is_panic}
use toyblockchain.Cli.Run.{Command, Turn, mining, stop, next, turn, after, run, run_repl, is_exit}
use toyblockchain.Cli.Commands.{grant}
use toyblockchain.Cli.Effects.{
  Explained, refused, shown, paid, given, extended, set, configured, replaced, recorded, written,
  first_command, arguments,
}
use toyblockchain.Cli.Replies.{run-Explained}

-- What `json.Unmarshal` gives can be encoded and decoded again, and its integers are `int`s.
pub record HasChainCodec (json : ChainJson) : Type 0 where
  pub decoded-encodes :
      (s : Bytes) (c : Chain) → json.unmarshal s ≡ ok c → json.unmarshal (json.marshal c) ≡ ok c
  pub decoded-IsInt64 :
      (s : Bytes) (c : Chain) → json.unmarshal s ≡ ok c → IsInt64 c.retarget.interval

-- Conditions on a chain and on what a command meets: the clock is not before the last block, and the
-- number of blocks and of workers stay in range.
pub record IsReady (cli : Cli) (env : Environment) (c : Chain) : Type 0 where
  pub early : (b : Block) → last_block c.blocks ≡ ok b → b.timestamp ≤ℤ env.clock
  pub small : length c.blocks + 1 < 2 ^ 63
  pub few : worker_count cli.mine_limits env.cpus < 2 ^ 64

load-decodes :
    (p : Platform) (json : ChainJson) (readable : Bool) (path : Bytes) (disk : Disk) (c : Chain)
    → load p json readable path disk ≡ ok c
    → (text : Bytes) × (json.unmarshal text ≡ ok c)
unfolding load
load-decodes p json readable path disk c e =
    let (text, e0, r0) = >>=-eq-ok (or_fail (lookup path disk) file_not_found) _ e in
    let (u, e1, r1) = >>=-eq-ok (fail_if (not readable) unreadable_file) _ r0 in
    let (d, e2, r2) = >>=-eq-ok (wrap_err (λ _. parsing_chain) (json.unmarshal text)) _ r1 in
    let (v, e3, r3) = >>=-eq-ok (wrap_err loaded_invalid (validate_chain p d)) _ r2 in
    let same : d ≡ c = ok-inj r3 in
    (text, rw (sym same) (wrap_err-ok (λ _. parsing_chain) (json.unmarshal text) e2))

module _ (p : Platform) (json : ChainJson) (codec : HasChainCodec json) (cli : Cli) where
  Explained-IsLive :
      (wallets : WalletJson) (env : Environment) (command : Command) (args : List Bytes) (c : Chain)
      (disk : Disk) (r : Reply)
      → IsLive p c
      → IsReady cli env c
      → Explained p json wallets cli env command args c disk r
      → IsLive p r.chain
  Explained-IsLive wallets env command args c disk r live ready (refused e can h same k) =
      rw same live
  Explained-IsLive wallets env command args c disk r live ready (shown d same q) = rw same live
  Explained-IsLive wallets env command args c disk r live ready
        (paid name recipient text amount tx h a n s e q) =
      (add_transaction-IsLive p c r.chain tx live e).0
  Explained-IsLive wallets env command args c disk r live ready
        (given recipient text amount h a n e q) =
      (add_transaction-IsLive p c r.chain (grant recipient amount) live e).0
  Explained-IsLive wallets env command args c disk r live ready (extended b h e q) =
      let (previous, last) = latest-ok c live.valid.has_blocks in
      (mine_block-IsLive p c r.chain env.clock cli.mine_limits env.cpus env.events b previous live
        last (ready.early previous last) ready.small ready.few e).0
  Explained-IsLive wallets env command args c disk r live ready (set text d h a n e q) =
      set_difficulty-IsLive p c r.chain d live (omega (arith, ready.small)) e
  Explained-IsLive wallets env command args c disk r live ready (configured config h s e k o) =
      configure_retarget-IsLive p c r.chain config live
        (parse_int-IsInt64 s.interval config.interval s.every) e
  Explained-IsLive wallets env command args c disk r live ready
        (replaced path candidate report h a loaded e s) =
      let (text, decoded) = load-decodes p json env.readable path disk candidate loaded in
      (resolve_fork-IsLive p json c candidate r.chain report
        (codec.decoded-encodes text candidate decoded)
        (codec.decoded-IsInt64 text candidate decoded) e).live
  Explained-IsLive wallets env command args c disk r live ready
        (recorded name seed store h a l u m same s) =
      rw same live
  Explained-IsLive wallets env command args c disk r live ready (written h same s) = rw same live

  -- A command on a chain in use leaves a chain in use, whether it succeeds or fails and whatever the
  -- disk holds, if the clock is not before the last block and blocks and workers are in range.
  pub run-IsLive :
      (wallets : WalletJson) (env : Environment) (c : Chain) (disk : Disk) (args : List Bytes)
      (r : Reply)
      → IsLive p c
      → IsReady cli env c
      → run p json wallets cli env c disk args ≡ some r
      → IsLive p r.chain
  run-IsLive wallets env c disk args r live ready e =
      Explained-IsLive wallets env (first_command args) (arguments args) c disk r live ready
        (run-Explained p json wallets cli env c disk args r e)

  -- The conditions at every line that the interactive mode comes to.
  unfoldable pub AreReady : WalletJson → List (Bytes × Environment) → Chain → Disk → Type 0
  AreReady wallets [] c disk = Unit
  AreReady wallets ((text, env) ∷ lines) c disk =
      IsReady cli env c
      × ((c' : Chain) (disk' : Disk)
          → turn p json wallets cli text env c disk ≡ next c' disk'
          → AreReady wallets lines c' disk')

  TurnLive : Turn → Type 0
  TurnLive mining = Unit
  TurnLive (stop c disk) = IsLive p c
  TurnLive (next c disk) = IsLive p c

  after-TurnLive :
      (wallets : WalletJson) (env : Environment) (c : Chain) (disk : Disk) (args : List Bytes)
      → IsLive p c
      → IsReady cli env c
      → TurnLive (after p json wallets cli env (run p json wallets cli env c disk args))
  unfolding TurnLive
  after-TurnLive wallets env c disk args live ready =
      elim (Option-cases (run p json wallets cli env c disk args)) [
        | inl e ↦ rw e tt
        | inr (r, e) ↦
            let kept = run-IsLive wallets env c disk args r live ready e in
            rw e (if_both TurnLive (is_panic r.result) _ _ kept kept)
      ]

  turn-TurnLive :
      (wallets : WalletJson) (text : Bytes) (env : Environment) (c : Chain) (disk : Disk)
      → IsLive p c
      → IsReady cli env c
      → TurnLive (turn p json wallets cli text env c disk)
  unfolding turn TurnLive
  turn-TurnLive wallets text env c disk live ready =
      if_both TurnLive (is_empty (trim_space text)) _ _ live (
        if_both TurnLive (is_exit p json wallets cli (trim_space text)) _ _ live
          (after-TurnLive wallets env c disk (fields (trim_space text)) live ready))

  -- An interactive session on a chain in use ends with a chain in use, whatever its commands are and
  -- whichever of them fail, if at each line the clock is not before the last block and blocks and
  -- workers are in range.
  pub run_repl-IsLive :
      (wallets : WalletJson) (lines : List (Bytes × Environment)) (c c' : Chain) (disk disk' : Disk)
      → IsLive p c
      → AreReady wallets lines c disk
      → run_repl p json wallets cli lines c disk ≡ some (c', disk')
      → IsLive p c'
  unfolding run_repl AreReady TurnLive
  run_repl-IsLive wallets [] c c' disk disk' live ready e =
      let same : c ≡ c' = cc e in rw (sym same) live
  run_repl-IsLive wallets ((text, env) ∷ lines) c c' disk disk' live (ready, more) e =
      go (turn p json wallets cli text env c disk) refl
        (turn-TurnLive wallets text env c disk live ready)
        (λ d disk2 kept more e. run_repl-IsLive wallets lines d c' disk2 disk' kept more e)
    where
      go :
          (t : Turn)
          → turn p json wallets cli text env c disk ≡ t
          → TurnLive t
          → ((d : Chain) (disk2 : Disk)
              → IsLive p d
              → AreReady wallets lines d disk2
              → run_repl p json wallets cli lines d disk2 ≡ some (c', disk')
              → IsLive p c')
          → IsLive p c'
      go mining f kept rest = ground arith
      go (stop d disk2) f kept rest = let same : d ≡ c' = ground arith in rw (sym same) kept
      go (next d disk2) f kept rest = rest d disk2 kept (more d disk2 f) (ground arith)
