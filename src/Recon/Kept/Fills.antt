-- ===== src/Recon/Kept/Fills.antt =====
-- The fills step of a run, which writes no issue.
use botik.Base.{
  if_kept, ℕ, ◌≡◌, refl, Bool, Option, none, some, List, [], ◌∷◌, if◌then◌else◌, lookup,
}
use botik.Base.Float.{Float}
use botik.Recon.Issues.{Core}
use botik.Recon.Tables.{
  Tables, Fill, FundingEvent, insert_if_new, insert_fill, insert_futures_funding_event, OrderRow,
}
use botik.Recon.Service.{Answer, Audit, Recon, count, write}
use botik.Recon.Kept.{Holds, IsKept, core_kept, count-IsKept, write-IsKept, keeps_orders, then_kept}
use botik.Recon.Fills.{
  Execution, fill_of, funding_of, store_funding, store_fill, named_fill, take_fill, take_fills,
  symbol_fills, symbols_fills,
}

insert_if_new_orders :
    {F : Type 0} ⦃fl : Float F⦄ (o : Option (Fill F)) (exec_id : ℕ) (f : Fill F) (t : Tables F)
    → (insert_if_new o exec_id f t).orders ≡ t.orders
unfolding insert_if_new
insert_if_new_orders none exec_id f t = refl
insert_if_new_orders (some old) exec_id f t = refl

module _ {F : Type 0} ⦃fl : Float F⦄ (P : Core → List (OrderRow F) → List Audit → Type 0) where
  insert_fill_orders :
      (exec_id : ℕ) (f : Fill F) (t : Tables F) → (insert_fill exec_id f t).orders ≡ t.orders
  unfolding insert_fill
  insert_fill_orders exec_id f t = insert_if_new_orders (lookup exec_id t.fills) exec_id f t

  insert_funding_orders :
      (e : FundingEvent F) (t : Tables F) → (insert_futures_funding_event e t).1.orders ≡ t.orders
  unfolding insert_futures_funding_event
  insert_funding_orders e t =
      if_kept (λ (r : Bool × Tables F). r.1.orders ≡ t.orders) _ _ _ refl refl

  store_funding-IsKept : (symbol : ℕ) (e : Execution F) → IsKept P (store_funding symbol e)
  unfolding store_funding
  store_funding-IsKept symbol e s p =
      let made = insert_futures_funding_event (funding_of symbol e) s.tables in
      let s' = write (λ _. made.1) s in
      let h : Holds P s' = keeps_orders P made.1 s (insert_funding_orders _ s.tables) p in
      core_kept P made.0 (count _ s') s' (count-IsKept P _ s' h) h

  store_fill-IsKept :
      (linear : Bool) (symbol exec_id : ℕ) (e : Execution F)
      → IsKept P (store_fill linear symbol exec_id e)
  unfolding store_fill
  store_fill-IsKept linear symbol exec_id e s p =
      let f = fill_of symbol e in
      let s' = write (insert_fill exec_id f) s in
      let h : Holds P s' =
        write-IsKept P (insert_fill exec_id f) (insert_fill_orders exec_id f) s p in
      let s'' = if e.is_funding then store_funding symbol e s' else s' in
      let h'' : Holds P s'' =
        core_kept P e.is_funding _ s' (store_funding-IsKept symbol e s' h) h in
      count-IsKept P _ (if linear then s'' else s') (core_kept P linear s'' s' h'' h)

  named_fill-IsKept :
      (linear : Bool) (symbol : ℕ) (o : Option ℕ) (e : Execution F)
      → IsKept P (named_fill linear symbol o e)
  unfolding named_fill
  named_fill-IsKept linear symbol none e s p = p
  named_fill-IsKept linear symbol (some n) e s p = store_fill-IsKept linear symbol n e s p

  take_fills-IsKept :
      (linear : Bool) (symbol : ℕ) (es : List (Execution F))
      → IsKept P (take_fills linear symbol es)
  unfolding take_fills take_fill
  take_fills-IsKept linear symbol [] s p = p
  take_fills-IsKept linear symbol (e ∷ es) s p =
      take_fills-IsKept linear symbol es (take_fill linear symbol e s)
        (named_fill-IsKept linear symbol e.exec_id e s p)

  symbol_fills_kept :
      (linear : Bool) (symbol : ℕ) (a : Answer (List (Execution F))) (s : Recon F)
      → Holds P s
      → Holds P (symbol_fills linear symbol a s).1
  unfolding symbol_fills
  symbol_fills_kept linear symbol Answer.raises s p = p
  symbol_fills_kept linear symbol Answer.refuses s p = p
  symbol_fills_kept linear symbol (Answer.answers es) s p = take_fills-IsKept linear symbol es s p

  pub symbols_fills_kept :
      (linear : Bool) (ask : ℕ → Answer (List (Execution F))) (symbols : List ℕ) (s : Recon F)
      → Holds P s
      → Holds P (symbols_fills linear ask symbols s).1
  unfolding symbols_fills
  symbols_fills_kept linear ask [] s p = p
  symbols_fills_kept linear ask (a ∷ symbols) s p =
      then_kept P (symbol_fills linear a (ask a)) (symbols_fills linear ask symbols) s
        (symbol_fills_kept linear a (ask a) s p) (symbols_fills_kept linear ask symbols)
