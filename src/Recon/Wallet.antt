-- ===== src/Recon/Wallet.antt =====
-- `_reconcile_wallet` of src/botik/execution/reconciliation_service.py.
use botik.Base.{
  ℕ, suc, ◌==◌, Bool, true, false, ◌||◌, Option, none, some, List, [], ◌∷◌, if◌then◌else◌,
}
use botik.Base.Float.{Float, nought, fmax, fmin}
use botik.Recon.Issues.{IssueType, Domain, Severity}
use botik.Recon.Tables.{SpotHolding, HoldReason, upsert_spot_balance, upsert_spot_holding}
use botik.Recon.Service.{
  Num, Answer, AuditType, Service, Recon, Step, count, write, report, float_of, first_of,
}

-- A coin of an account; `none` for an empty name.
pub record CoinInfo (F : Type 0) : Type 0 where
  pub coin : Option ℕ
  pub wallet_balance : Num F
  pub equity : Num F
  pub free : Num F
  pub available_to_withdraw : Num F

-- `[account.get("coin") …]`
abbrev pub Wallets : Type 0 → Type 0
Wallets F = List (List (CoinInfo F))

unfoldable pub is_seen : ℕ → List ℕ → Bool
is_seen a [] = false
is_seen a (b ∷ bs) = (a == b) || is_seen a bs

module _ {F : Type 0} where
  -- `local_by_asset.get(coin)`: the last row of the asset, of which only the presence matters.
  unfoldable pub has_asset : ℕ → List (SpotHolding F) → Bool
  has_asset a [] = false
  has_asset a (h ∷ hs) = (h.base_asset == a) || has_asset a hs

module _ {F : Type 0} ⦃fl : Float F⦄ (v : Service) where
  abbrev or_total : Num F → F → F
  or_total Num.no_num total = total
  or_total Num.wrong_num total = nought
  or_total (Num.num x) total = x

  abbrev recovered : ℕ → F → F → SpotHolding F
  recovered coin free locked = record {
    symbol = v.usdt_pair coin;
    base_asset = coin;
    free_qty = free;
    locked_qty = locked;
    avg_entry_price = none;
    hold_reason = HoldReason.unknown_recovered_from_exchange;
    recovered_from_exchange = true;
    strategy_owner = none;
    auto_sell_allowed = false;
  }

  -- A coin that no holding has: the holding is taken over, and reported.
  unfoldable pub recover_coin : ℕ → F → F → Recon F → Recon F
  recover_coin coin free locked s =
      report
        record {
          issue_type = IssueType.spot_asset_recovered_from_exchange;
          domain = Domain.spot;
          symbol = some (v.usdt_pair coin);
        }
        Severity.warning (λ m. record m { spot_holdings_recovered = suc m.spot_holdings_recovered })
        AuditType.imported_recovered_holding
        (write (upsert_spot_holding (recovered coin free locked)) s)

  unfoldable pub take_coin : List (SpotHolding F) → ℕ → F → F → Recon F → Recon F
  take_coin local coin free locked s =
      let s' =
        count (λ m. record m { spot_balances_seen = suc m.spot_balances_seen })
          (write (upsert_spot_balance coin free locked) s) in
      if v.is_stable coin || has_asset coin local then s' else recover_coin coin free locked s'

  -- A coin of the wallet by its name; the assets that were seen are returned too.
  unfoldable pub named_coin :
      List (SpotHolding F) → CoinInfo F → Option ℕ → List ℕ × Recon F → List ℕ × Recon F
  named_coin local info none r = r
  named_coin local info (some coin) (seen, s) =
      let total = float_of (first_of info.wallet_balance info.equity) in
      let free =
        fmin (fmax (or_total (first_of info.free info.available_to_withdraw) total) nought) total in
      if fl.le total nought
      then (seen, s)
      else (coin ∷ seen, take_coin local coin free (fmax (fl.sub total free) nought) s)

  unfoldable pub wallet_coin :
      List (SpotHolding F) → CoinInfo F → List ℕ × Recon F → List ℕ × Recon F
  wallet_coin local info r = named_coin local info info.coin r

  unfoldable pub wallet_account :
      List (SpotHolding F) → List (CoinInfo F) → List ℕ × Recon F → List ℕ × Recon F
  wallet_account local [] r = r
  wallet_account local (i ∷ infos) r = wallet_account local infos (wallet_coin local i r)

  unfoldable pub wallet_accounts :
      List (SpotHolding F) → Wallets F → List ℕ × Recon F → List ℕ × Recon F
  wallet_accounts local [] r = r
  wallet_accounts local (a ∷ accounts) r = wallet_accounts local accounts (wallet_account local a r)

  -- A holding of the database that the wallet does not have.
  unfoldable pub stale_holding : SpotHolding F → Recon F → Recon F
  stale_holding h s =
      report
        record {
          issue_type = IssueType.local_holding_missing_on_exchange;
          domain = Domain.spot;
          symbol = some h.symbol;
        }
        Severity.warning (λ m. m) AuditType.reconciliation_repair_applied
        (write (upsert_spot_holding (record h { hold_reason = HoldReason.stale_hold })) s)

  unfoldable pub stale_holdings : List ℕ → List (SpotHolding F) → Recon F → Recon F
  stale_holdings seen [] s = s
  stale_holdings seen (h ∷ hs) s = stale_holdings seen hs (
      if fl.le (fl.add h.free_qty h.locked_qty) nought || is_seen h.base_asset seen
      then s
      else stale_holding h s)

  unfoldable pub wallet_lists : Wallets F → Recon F → Recon F
  wallet_lists wallets s =
      let local = s.tables.spot_holdings in
      let (seen, s') = wallet_accounts local wallets ([], s) in stale_holdings seen local s'

  unfoldable pub wallet_refused : Recon F → Recon F
  wallet_refused s =
      report
        record {
          issue_type = IssueType.wallet_balance_api_error;
          domain = Domain.shared;
          symbol = none;
        }
        Severity.error (λ m. m) AuditType.reconciliation_issue s

  unfoldable pub reconcile_wallet : Answer (Wallets F) → Step F
  reconcile_wallet Answer.raises s = (true, s)
  reconcile_wallet Answer.refuses s = (false, wallet_refused s)
  reconcile_wallet (Answer.answers wallets) s = (false, wallet_lists wallets s)
