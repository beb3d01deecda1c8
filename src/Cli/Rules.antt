-- ===== src/Cli/Rules.antt =====
-- The commands about the difficulty do what they may (cli/cli.go).
use toyblockchain.Cli.Changes.{parse_number-ok, failed-Explained, settle-Explained, answer-Quiet}
use toyblockchain.Prelude.{
  inl, inr, Result-cases, ok-inj, ◌≡◌, refl, sym, List, [], ◌∷◌, ok, >>=-eq-ok, wrap_err,
  wrap_err-ok,
}
use toyblockchain.Prelude.Int.{pos}
use toyblockchain.Prelude.Int64.{add64}
use toyblockchain.Prelude.Bytes.{Bytes}
use toyblockchain.Platform.{Platform}
use toyblockchain.Chain.Types.{Chain, RetargetConfig, latest}
use toyblockchain.Chain.Retarget.{configure_retarget}
use toyblockchain.Chain.Difficulty.{set_difficulty}
use toyblockchain.Chain.Fork.{ChainJson}
use toyblockchain.Chain.Storage.{Disk}
use toyblockchain.Cli.Types.{
  difficulty_applies, retarget_updated, WalletJson, Cli, Environment, Line, Reply, answer, usage,
  chain_failed,
}
use toyblockchain.Cli.Run.{Command, setdifficulty, retarget_info, retarget_config}
use toyblockchain.Cli.Effects.{Explained, shown, set, configured, Settings}
use toyblockchain.Cli.Commands.{
  change_difficulty, cmd_set_difficulty, cmd_retarget, cmd_retarget_config, retarget_lines,
  change_retarget, parse_switch, parse_number,
}

module _ (p : Platform) (json : ChainJson) (wallets : WalletJson) (cli : Cli)
    (env : Environment) where
  -- The specification at these parameters.
  abbrev Meets : Command → List Bytes → Chain → Disk → Reply → Type 0
  Meets = Explained p json wallets cli env

  change_difficulty-Explained :
      (c : Chain) (disk : Disk) (text : Bytes) (r : Reply)
      → change_difficulty c disk text ≡ ok r
      → Meets setdifficulty (text ∷ []) c disk r
  unfolding change_difficulty
  change_difficulty-Explained c disk text r e =
      let (d, e0, r0) = >>=-eq-ok (parse_number text) _ e in
      let (changed, e1, r1) = >>=-eq-ok (wrap_err chain_failed (set_difficulty c d)) _ r0 in
      let (last, e2, r2) = >>=-eq-ok (wrap_err chain_failed (latest changed)) _ r1 in
      let same : answer changed disk (difficulty_applies d (add64 last.height (pos 1)) ∷ []) ≡ r =
        ok-inj r2 in
      rw (sym same) (
        set text d refl refl (parse_number-ok text d e0) (wrap_err-ok chain_failed _ e1)
          (answer-Quiet p json wallets cli env changed disk _))

  pub cmd_set_difficulty-Explained :
      (c : Chain) (disk : Disk) (args : List Bytes)
      → Meets setdifficulty args c disk (cmd_set_difficulty c disk args)
  unfolding cmd_set_difficulty
  cmd_set_difficulty-Explained c disk (text ∷ []) =
      settle-Explained p json wallets cli env setdifficulty (text ∷ []) c disk _ (λ e. tt)
        (change_difficulty-Explained c disk text)
  cmd_set_difficulty-Explained c disk [] =
      failed-Explained p json wallets cli env setdifficulty [] c disk usage tt
  cmd_set_difficulty-Explained c disk (a ∷ b ∷ args) =
      failed-Explained p json wallets cli env setdifficulty (a ∷ b ∷ args) c disk usage tt

  -- The end of `retarget-config`.
  reported-Explained :
      (args : List Bytes) (c c' : Chain) (disk : Disk) (lines : List Line) (config : RetargetConfig)
      → Settings args config
      → configure_retarget c config ≡ ok c'
      → Meets retarget_config args c disk (cmd_retarget c' disk lines)
  unfolding cmd_retarget
  reported-Explained args c c' disk lines config settings h =
      elim (Result-cases (retarget_lines c')) [
        | inl (more, e) ↦ rw (cmd_retarget, e) (configured config refl settings h refl (inl refl))
        | inr (x, e) ↦
            rw (cmd_retarget, e) (configured config refl settings h refl (inr (x, e, refl)))
      ]

  -- `retarget`
  pub cmd_retarget-Explained :
      (args : List Bytes) (c : Chain) (disk : Disk)
      → Meets retarget_info args c disk (cmd_retarget c disk [])
  unfolding cmd_retarget
  cmd_retarget-Explained args c disk = elim (Result-cases (retarget_lines c)) [
    | inl (more, e) ↦
        rw (cmd_retarget, e) (shown refl refl (answer-Quiet p json wallets cli env c disk _))
    | inr (x, e) ↦
        rw (cmd_retarget, e)
          (failed-Explained p json wallets cli env retarget_info args c disk (chain_failed x)
            (x, e, refl))
  ]

  change_retarget-Explained :
      (c : Chain) (disk : Disk) (switch interval seconds minimum maximum : Bytes) (r : Reply)
      → change_retarget c disk switch interval seconds minimum maximum ≡ ok r
      → Meets retarget_config (switch ∷ interval ∷ seconds ∷ minimum ∷ maximum ∷ []) c disk r
  unfolding change_retarget
  change_retarget-Explained c disk switch interval seconds minimum maximum r e =
      let (on, e0, r0) = >>=-eq-ok (parse_switch switch) _ e in
      let (every, e1, r1) = >>=-eq-ok (parse_number interval) _ r0 in
      let (target, e2, r2) = >>=-eq-ok (parse_number seconds) _ r1 in
      let (low, e3, r3) = >>=-eq-ok (parse_number minimum) _ r2 in
      let (high, e4, r4) = >>=-eq-ok (parse_number maximum) _ r3 in
      let config : RetargetConfig = record {
        enabled = on;
        interval = every;
        target_block_seconds = target;
        min_difficulty = low;
        max_difficulty = high;
      } in
      let (changed, e5, r5) =
        >>=-eq-ok (wrap_err chain_failed (configure_retarget c config)) _ r4 in
      let same : cmd_retarget changed disk (retarget_updated ∷ []) ≡ r = ok-inj r5 in
      let settings : Settings (switch ∷ interval ∷ seconds ∷ minimum ∷ maximum ∷ []) config =
        record {
          switch = switch;
          interval = interval;
          seconds = seconds;
          minimum = minimum;
          maximum = maximum;
          five = refl;
          enabled = e0;
          every = parse_number-ok interval every e1;
          target = parse_number-ok seconds target e2;
          low = parse_number-ok minimum low e3;
          high = parse_number-ok maximum high e4;
        } in
      rw (sym same) (
        reported-Explained (switch ∷ interval ∷ seconds ∷ minimum ∷ maximum ∷ []) c changed disk
          (retarget_updated ∷ []) config settings (wrap_err-ok chain_failed _ e5))

  pub cmd_retarget_config-Explained :
      (c : Chain) (disk : Disk) (args : List Bytes)
      → Meets retarget_config args c disk (cmd_retarget_config c disk args)
  unfolding cmd_retarget_config
  cmd_retarget_config-Explained c disk (switch ∷ interval ∷ seconds ∷ minimum ∷ maximum ∷ []) =
      settle-Explained p json wallets cli env retarget_config
        (switch ∷ interval ∷ seconds ∷ minimum ∷ maximum ∷ []) c disk _ (λ e. tt)
        (change_retarget-Explained c disk switch interval seconds minimum maximum)
  cmd_retarget_config-Explained c disk [] =
      failed-Explained p json wallets cli env retarget_config [] c disk usage tt
  cmd_retarget_config-Explained c disk (a ∷ []) =
      failed-Explained p json wallets cli env retarget_config (a ∷ []) c disk usage tt
  cmd_retarget_config-Explained c disk (a ∷ b ∷ []) =
      failed-Explained p json wallets cli env retarget_config (a ∷ b ∷ []) c disk usage tt
  cmd_retarget_config-Explained c disk (a ∷ b ∷ d ∷ []) =
      failed-Explained p json wallets cli env retarget_config (a ∷ b ∷ d ∷ []) c disk usage tt
  cmd_retarget_config-Explained c disk (a ∷ b ∷ d ∷ f ∷ []) =
      failed-Explained p json wallets cli env retarget_config (a ∷ b ∷ d ∷ f ∷ []) c disk usage tt
  cmd_retarget_config-Explained c disk (a ∷ b ∷ d ∷ f ∷ g ∷ h ∷ args) =
      failed-Explained p json wallets cli env retarget_config (a ∷ b ∷ d ∷ f ∷ g ∷ h ∷ args) c disk
        usage tt
