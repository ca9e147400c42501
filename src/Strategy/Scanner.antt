-- ===== src/Strategy/Scanner.antt =====
-- src/botik/strategy/spread_scanner.py.
use botik.Base.{ℕ, ◌||◌, Bool, false, if◌then◌else◌}
use botik.Base.Float.{Float, nought, one, fmax}

pub data ScanReason : Type 0 where
  tradable_edge invalid_top_of_book top_book_liquidity_too_low : ScanReason
  invalid_entry_exit_after_tick net_edge_below_threshold : ScanReason

pub record SpreadScanResult (F : Type 0) : Type 0 where
  pub tradable : Bool
  pub reason : ScanReason
  pub entry_price : F
  pub exit_price : F
  pub net_edge : F
  pub required_edge : F

-- The arguments of `scan_spread`.
pub record ScanInput (F : Type 0) : Type 0 where
  pub best_bid : F
  pub best_ask : F
  pub best_bid_size : F
  pub best_ask_size : F
  pub tick_size : F
  pub entry_tick_offset : ℕ
  pub buy_fee : F
  pub sell_fee : F
  pub target_profit : F
  pub safety_buffer : F
  pub min_top_book_qty : F

module _ {F : Type 0} ⦃fl : Float F⦄ where
  abbrev minus_one : F
  minus_one = fl.neg one

  unfoldable pub compute_net_edge : F → F → F → F → F
  compute_net_edge entry_price exit_price buy_fee sell_fee =
      let denominator = fl.mul entry_price (fl.add one (fmax buy_fee nought)) in
      let numerator = fl.mul exit_price (fl.sub one (fmax sell_fee nought)) in
      if fl.le entry_price nought || fl.le exit_price nought
      then minus_one
      else if fl.le denominator nought
      then minus_one
      else fl.sub (fl.div numerator denominator) one

  abbrev required_of : ScanInput F → F
  required_of i = fl.add i.target_profit i.safety_buffer

  -- A result that is not tradable.
  abbrev refused : ScanInput F → ScanReason → F → F → SpreadScanResult F
  refused i why entry exit = record {
    tradable = false;
    reason = why;
    entry_price = entry;
    exit_price = exit;
    net_edge = minus_one;
    required_edge = required_of i;
  }

  abbrev is_thin : ScanInput F → Bool
  is_thin i =
      if fl.lt nought i.min_top_book_qty
      then fl.lt i.best_bid_size i.min_top_book_qty || fl.lt i.best_ask_size i.min_top_book_qty
      else false

  abbrev tick_of : ScanInput F → F
  tick_of i = fl.mul (fmax i.tick_size nought) (fl.lit i.entry_tick_offset 0)

  unfoldable pub scan_spread : ScanInput F → SpreadScanResult F
  scan_spread i =
      let entry = fl.add i.best_bid (tick_of i) in
      let exit = fl.sub i.best_ask (tick_of i) in
      let edge = compute_net_edge entry exit i.buy_fee i.sell_fee in
      if fl.le i.best_bid nought || fl.le i.best_ask nought || fl.le i.best_ask i.best_bid
      then refused i ScanReason.invalid_top_of_book nought nought
      else if is_thin i
      then refused i ScanReason.top_book_liquidity_too_low entry exit
      else if fl.le entry nought || fl.le exit nought || fl.le exit entry
      then refused i ScanReason.invalid_entry_exit_after_tick entry exit
      else record {
        tradable = fl.lt (required_of i) edge;
        reason =
            if fl.lt (required_of i) edge
            then ScanReason.tradable_edge
            else ScanReason.net_edge_below_threshold;
        entry_price = entry;
        exit_price = exit;
        net_edge = edge;
        required_edge = required_of i;
      }
