-- ===== src/Chain/Retarget.antt =====
-- Automatic difficulty (chain/retarget.go).
use toyblockchain.Prelude.{
  ◌+◌, Bool, true, false, not, ◌||◌, List, [], ◌∷◌, length, get_elem?, ◌==◌, if◌then◌else◌, Result,
  ok, err, fail_if, or_fail, wrap_err, ◌>>=◌, ◌>>◌,
}
use toyblockchain.Prelude.Int.{ℤ, pos, negsuc, pos_part, neg_part, ltb_ℤ, leb_ℤ, eqb_ℤ}
use toyblockchain.Prelude.Int64.{add64, sub64, mul64, quot, rem}
use toyblockchain.Block.Types.{Block}
use toyblockchain.Chain.Types.{
  Chain, RetargetConfig, ConfigError, short_interval, no_target_time, minimum_out_of_range,
  maximum_out_of_range, minimum_above_maximum, ChainError, panicked, index_out_of_range,
  division_by_zero, invalid_config, retarget_too_late, latest,
}

abbrev pub default_retarget_config : RetargetConfig
default_retarget_config = record {
  enabled = false;
  interval = pos 5;
  target_block_seconds = pos 5;
  min_difficulty = pos 1;
  max_difficulty = pos 8;
}

abbrev pub is_out_of_range : ℤ → Bool
is_out_of_range difficulty = ltb_ℤ difficulty (pos 0) || ltb_ℤ (pos 64) difficulty

-- `RetargetConfig.Validate`
unfoldable pub validate_config : RetargetConfig → Result ConfigError (Unit {0})
validate_config r = do
  fail_if (ltb_ℤ r.interval (pos 2)) short_interval
  fail_if (leb_ℤ r.target_block_seconds (pos 0)) no_target_time
  fail_if (is_out_of_range r.min_difficulty) minimum_out_of_range
  fail_if (is_out_of_range r.max_difficulty) maximum_out_of_range
  fail_if (ltb_ℤ r.max_difficulty r.min_difficulty) minimum_above_maximum

-- `len(c.Blocks) != 1 || c.Blocks[0].Height != 0`
abbrev pub is_past_genesis : List Block → Bool
is_past_genesis [] = true
is_past_genesis (b ∷ []) = not (eqb_ℤ b.height (pos 0))
is_past_genesis (b ∷ c ∷ bs) = true

unfoldable pub configure_retarget : Chain → RetargetConfig → Result ChainError Chain
configure_retarget c config = do
  fail_if (is_past_genesis c.blocks) retarget_too_late
  wrap_err invalid_config (validate_config config)
  ok (record c { retarget = config })

-- Go's `a % b`: the result has the sign of `a`.
unfoldable pub modulo : ℤ → ℤ → Result ChainError ℤ
modulo a b =
    let divisor = pos_part b + neg_part b in
    if divisor == 0 then err (panicked division_by_zero) else ok (rem a divisor)

unfoldable pub next_retarget_height : Chain → Result ChainError ℤ
next_retarget_height c =
    if not c.retarget.enabled
    then ok (negsuc 0)
    else latest c >>= λ last.
        let interval = c.retarget.interval in
        let next = add64 last.height (pos 1) in
        let first = add64 interval (pos 1) in
        if leb_ℤ next first
        then ok first
        else modulo (sub64 next first) interval >>= λ offset.
            if eqb_ℤ offset (pos 0) then ok next else ok (add64 next (sub64 interval offset))

unfoldable pub should_retarget : RetargetConfig → ℤ → Result ChainError Bool
should_retarget r height =
    if not r.enabled || leb_ℤ height r.interval
    then ok false
    else modulo (sub64 height (pos 1)) r.interval >>= λ offset. ok (eqb_ℤ offset (pos 0))

-- `c.Blocks[i]`
unfoldable pub block_at : List Block → ℤ → Result ChainError Block
block_at bs (pos i) = or_fail (get_elem? bs i) (panicked index_out_of_range)
block_at bs (negsuc i) = err (panicked index_out_of_range)

-- `next` from the time that the window took
unfoldable pub adjust : RetargetConfig → ℤ → ℤ → ℤ
adjust r actual current =
    let expected = mul64 (sub64 r.interval (pos 1)) r.target_block_seconds in
    if ltb_ℤ actual (quot expected 2)
    then add64 current (pos 1)
    else if ltb_ℤ (mul64 expected (pos 2)) actual
    then sub64 current (pos 1)
    else current

unfoldable pub clamp : RetargetConfig → ℤ → ℤ
clamp r next =
    let raised = if ltb_ℤ next r.min_difficulty then r.min_difficulty else next in
    if ltb_ℤ r.max_difficulty raised then r.max_difficulty else raised

unfoldable pub retarget_difficulty : RetargetConfig → List Block → ℤ → ℤ → Result ChainError ℤ
retarget_difficulty r bs height current =
    let window_start = sub64 height r.interval in
    let window_end = sub64 height (pos 1) in
    if ltb_ℤ window_start (pos 1) || leb_ℤ (pos (length bs)) window_end
    then ok current
    else block_at bs window_start >>= λ first. block_at bs window_end >>= λ last.
        ok (clamp r (adjust r (sub64 last.timestamp first.timestamp) current))
