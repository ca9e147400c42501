-- ===== src/Recon/Kept/Wallet.antt =====
-- The wallet step of a run.
use botik.Base.{if_kept, ℕ, suc, ◌≡◌, refl, ◌||◌, Option, none, some, List, [], ◌∷◌, if◌then◌else◌}
use botik.Base.Float.{Float, nought}
use botik.Recon.Issues.{Core}
use botik.Recon.Tables.{Tables, upsert_spot_balance, upsert_spot_holding, SpotHolding, OrderRow}
use botik.Recon.Service.{Answer, Audit, Service, Recon, count, write}
use botik.Recon.Kept.{
  KeepsReport, Holds, IsKept, IsKeptBy, core_kept, count-IsKept, write-IsKept, report-IsKept,
}
use botik.Recon.Wallet.{
  CoinInfo, Wallets, is_seen, take_coin, recover_coin, named_coin, wallet_coin, wallet_account,
  wallet_accounts, stale_holding, stale_holdings, wallet_lists, wallet_refused, reconcile_wallet,
}

module _ {F : Type 0} ⦃fl : Float F⦄ (v : Service)
    (P : Core → List (OrderRow F) → List Audit → Type 0) (keeps_report : KeepsReport P) where
  balance_orders :
      (coin : ℕ) (free locked : F) (t : Tables F)
      → (upsert_spot_balance coin free locked t).orders ≡ t.orders
  unfolding upsert_spot_balance
  balance_orders coin free locked t = refl

  holding_orders : (h : SpotHolding F) (t : Tables F) → (upsert_spot_holding h t).orders ≡ t.orders
  unfolding upsert_spot_holding
  holding_orders h t = refl

  recover_coin-IsKept : (coin : ℕ) (free locked : F) → IsKept P (recover_coin v coin free locked)
  unfolding recover_coin
  recover_coin-IsKept coin free locked s p =
      report-IsKept P keeps_report _ _ _ _ refl refl _ (write-IsKept P _ (holding_orders _) s p)

  take_coin-IsKept :
      (local : List (SpotHolding F)) (coin : ℕ) (free locked : F)
      → IsKept P (take_coin v local coin free locked)
  unfolding take_coin
  take_coin-IsKept local coin free locked s p =
      let seen =
        count (λ m. record m { spot_balances_seen = suc m.spot_balances_seen })
          (write (upsert_spot_balance coin free locked) s) in
      let h : Holds P seen =
        count-IsKept P _ _ (write-IsKept P _ (balance_orders coin free locked) s p) in
      core_kept P _ seen _ h (recover_coin-IsKept coin free locked seen h)

  named_coin_kept :
      (local : List (SpotHolding F)) (i : CoinInfo F) (o : Option ℕ)
      → IsKeptBy P (named_coin v local i o)
  unfolding named_coin
  named_coin_kept local i none r p = p
  named_coin_kept local i (some coin) (seen, s) p =
      if_kept (λ (r : List ℕ × Recon F). Holds P r.1) _ _ _ p (take_coin-IsKept local coin _ _ s p)

  wallet_account_kept :
      (local : List (SpotHolding F)) (is_ : List (CoinInfo F))
      → IsKeptBy P (wallet_account v local is_)
  unfolding wallet_account wallet_coin
  wallet_account_kept local [] r p = p
  wallet_account_kept local (i ∷ is_) r p =
      wallet_account_kept local is_ _ (named_coin_kept local i i.coin r p)

  wallet_accounts_kept :
      (local : List (SpotHolding F)) (as_ : Wallets F) → IsKeptBy P (wallet_accounts v local as_)
  unfolding wallet_accounts
  wallet_accounts_kept local [] r p = p
  wallet_accounts_kept local (a ∷ as_) r p =
      wallet_accounts_kept local as_ _ (wallet_account_kept local a r p)

  stale_holding-IsKept : (h : SpotHolding F) → IsKept P (stale_holding v h)
  unfolding stale_holding
  stale_holding-IsKept h s p =
      report-IsKept P keeps_report _ _ _ _ refl refl (write _ s)
        (write-IsKept P _ (holding_orders _) s p)

  stale_holdings-IsKept :
      (seen : List ℕ) (hs : List (SpotHolding F)) → IsKept P (stale_holdings v seen hs)
  unfolding stale_holdings
  stale_holdings-IsKept seen [] s p = p
  stale_holdings-IsKept seen (h ∷ hs) s p =
      stale_holdings-IsKept seen hs
        (if fl.le (fl.add h.free_qty h.locked_qty) nought || is_seen h.base_asset seen
          then s
          else stale_holding v h s)
        (core_kept P _ s (stale_holding v h s) p (stale_holding-IsKept h s p))

  pub reconcile_wallet_kept :
      (a : Answer (Wallets F)) (s : Recon F) → Holds P s → Holds P (reconcile_wallet v a s).1
  unfolding reconcile_wallet wallet_lists wallet_refused
  reconcile_wallet_kept Answer.raises s p = p
  reconcile_wallet_kept Answer.refuses s p = report-IsKept P keeps_report _ _ _ _ refl refl s p
  reconcile_wallet_kept (Answer.answers ws) s p =
      stale_holdings-IsKept _ _ _ (wallet_accounts_kept _ ws ([], s) p)
