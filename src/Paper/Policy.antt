-- ===== src/Paper/Policy.antt =====
-- What a policy says of an open position on a tick: position/base_policy.py and
-- position/simple_exit.py. Times are in milliseconds; `time.time()` is an argument.
use botik.Base.{ℕ, Bool, false, ◌-◌, ◌&&◌, Option, none, if◌then◌else◌, ltb, leb}
use botik.Base.Float.{Float, nought, one}

-- `side` is a text; only these two are compared with.
pub data PositionSide : Type 0 where
  long short other_side : PositionSide

pub record Position (F : Type 0) : Type 0 where
  pub trade_id : ℕ
  pub symbol : ℕ
  pub side : PositionSide
  pub entry_price : F
  pub qty : F
  pub stop_loss : F
  pub take_profit : F
  pub mark_price : F
  pub opened_at_ms : ℕ
  pub partial_closed_qty : F

pub data Action : Type 0 where
  hold close_all close_partial add_more hedge : Action

-- The texts of the field `reason`.
pub data Reason : Type 0 where
  blank sl_hit tp_hit timeout manual : Reason

pub record PolicyAction (F : Type 0) : Type 0 where
  pub action : Action
  pub qty_pct : F
  pub reason : Reason
  pub new_stop_loss : Option F
  pub new_take_profit : Option F

-- The interface `BasePositionPolicy`: what `on_tick` answers at a time. The hooks do nothing.
abbrev pub Policy : Type 0 → Type 0
Policy F = ℕ → Position F → PolicyAction F

module _ {F : Type 0} ⦃fl : Float F⦄ where
  unfoldable pub unrealized_pnl : Position F → F
  unrealized_pnl p =
      let size = fl.sub p.qty p.partial_closed_qty in
      elim p.side [
        | PositionSide.long ↦ fl.mul (fl.sub p.mark_price p.entry_price) size
        | PositionSide.short ↦ fl.mul (fl.sub p.entry_price p.mark_price) size
        | PositionSide.other_side ↦ fl.mul (fl.sub p.entry_price p.mark_price) size
      ]

  unfoldable pub pnl_pct : Position F → F
  pnl_pct p = if fl.eq p.entry_price nought then nought else elim p.side [
    | PositionSide.long ↦
        fl.mul (fl.div (fl.sub p.mark_price p.entry_price) p.entry_price) (fl.lit 100 0)
    | PositionSide.short ↦
        fl.mul (fl.div (fl.sub p.entry_price p.mark_price) p.entry_price) (fl.lit 100 0)
    | PositionSide.other_side ↦
        fl.mul (fl.div (fl.sub p.entry_price p.mark_price) p.entry_price) (fl.lit 100 0)
  ]

  abbrev pub act : Action → Reason → PolicyAction F
  act a r = record {
    action = a;
    qty_pct = one;
    reason = r;
    new_stop_loss = none;
    new_take_profit = none;
  }

  unfoldable pub stop_reached : Position F → Bool
  stop_reached p = elim p.side [
    | PositionSide.long ↦ fl.le p.mark_price p.stop_loss
    | PositionSide.short ↦ fl.le p.stop_loss p.mark_price
    | PositionSide.other_side ↦ false
  ]

  unfoldable pub target_reached : Position F → Bool
  target_reached p = elim p.side [
    | PositionSide.long ↦ fl.le p.take_profit p.mark_price
    | PositionSide.short ↦ fl.le p.mark_price p.take_profit
    | PositionSide.other_side ↦ false
  ]

  -- `SimpleExitPolicy(hold_timeout_ms).on_tick`. An elapsed time below 0 is below the timeout, as
  -- is the 0 that stands for it here.
  unfoldable pub on_tick : ℕ → Policy F
  on_tick hold_timeout_ms now p =
      if stop_reached p
      then act Action.close_all Reason.sl_hit
      else if target_reached p
      then act Action.close_all Reason.tp_hit
      else if ltb 0 hold_timeout_ms && leb hold_timeout_ms (now - p.opened_at_ms)
      then act Action.close_all Reason.timeout
      else act Action.hold Reason.blank
