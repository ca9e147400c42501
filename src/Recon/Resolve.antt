-- ===== src/Recon/Resolve.antt =====
-- What `_resolve_stale_entry_lock_issues` of src/botik/execution/reconciliation_service.py comes to:
-- the open rows of the pairs that were checked, and that the run did not see, are closed.
use botik.Base.{
  ℕ, ◌+◌, ◌≤◌, ◌<◌, ◌≡◌, refl, sym, ◌∙◌, ap, Bool, true, false, not, ◌&&◌, ◌||◌, List, [], ◌∷◌,
  ◌++◌, append_assoc, keep, map, All, All-append, if◌then◌else◌, arith,
}
use botik.Recon.Issues.{Key, Issue, Core, has_key, same_key, resolve_reconciliation_issue}
use botik.Recon.Service.{Summary, Service, Recon, count, audit}
use botik.Recon.Run.{
  is_eligible, eligible_issues, resolve_row, resolve_rows, resolve_stale_entry_lock_issues,
}
use botik.Recon.Ledger.{IsBelow, IsBelow-later, any_open, count_open, has_key_same}

-- The rows of the loop, on the issues alone.
abbrev resolve_one : Bool → Issue → List Issue → List Issue
resolve_one true i is_ = is_
resolve_one false i is_ = (resolve_reconciliation_issue i.issue_id is_).1

unfoldable resolve_each : List Key → List Issue → List Issue → List Issue
resolve_each active [] is_ = is_
resolve_each active (i ∷ rows) is_ =
    resolve_each active rows (resolve_one (has_key i.key active) i is_)

-- An update that changes no row leaves the table.
resolve_none :
    (n : ℕ) (is_ : List Issue)
    → (resolve_reconciliation_issue n is_).0 ≡ false
    → (resolve_reconciliation_issue n is_).1 ≡ is_
unfolding resolve_reconciliation_issue
resolve_none n [] h = refl
resolve_none n (i ∷ is_) h = ground (arith, resolve_none n is_)

module _ {F : Type 0} where
  resolve_row-core :
      (i : Issue) (u : List ℕ) (s : Recon F)
      → (resolve_row i (u, s)).1.core
        ≡ record s.core { issues = resolve_one (has_key i.key s.core.active) i s.core.issues }
  unfolding resolve_row count audit
  resolve_row-core i u s = ground (arith, resolve_none i.issue_id s.core.issues)

  resolve_rows-core :
      (rows : List Issue) (r : List ℕ × Recon F)
      → (resolve_rows rows r).1.core
        ≡ record r.1.core { issues = resolve_each r.1.core.active rows r.1.core.issues }
  unfolding resolve_rows resolve_each
  resolve_rows-core [] r = refl
  resolve_rows-core (i ∷ rows) (u, s) =
      resolve_rows-core rows (resolve_row i (u, s))
      ∙ ap (λ (c : Core). record c { issues = resolve_each c.active rows c.issues })
          (resolve_row-core i u s)

unfoldable pub close : List Key → (Key → Bool) → Issue → Issue
close active e i =
    if (i.is_open && e i.key) && not (has_key i.key active) then record i { is_open = false } else i

resolve_past :
    (n : ℕ) (pre is_ : List Issue)
    → All (λ (i : Issue). n < i.issue_id) pre
    → (resolve_reconciliation_issue n (pre ++ is_)).1
      ≡ pre ++ (resolve_reconciliation_issue n is_).1
unfolding resolve_reconciliation_issue
resolve_past n [] is_ h = refl
resolve_past n (i ∷ pre) is_ (h, hs) = ground (arith, resolve_past n pre is_ hs)

resolve_below :
    (n : ℕ) (is_ : List Issue) → IsBelow n is_ → (resolve_reconciliation_issue n is_).1 ≡ is_
unfolding resolve_reconciliation_issue IsBelow
resolve_below n [] h = refl
resolve_below n (i ∷ is_) (h, b) =
    ground (arith, resolve_below n is_ (IsBelow-later i.issue_id n is_ (omega arith) b))

resolve_head :
    (i : Issue) (is_ : List Issue)
    → i.is_open ≡ true
    → IsBelow i.issue_id is_
    → (resolve_reconciliation_issue i.issue_id (i ∷ is_)).1 ≡ record i { is_open = false } ∷ is_
unfolding resolve_reconciliation_issue
resolve_head i is_ h b = ground (arith, resolve_below i.issue_id is_ b)

later_ids :
    (m n : ℕ) (is_ : List Issue)
    → m < n
    → All (λ (i : Issue). n ≤ i.issue_id) is_
    → All (λ (i : Issue). m < i.issue_id) is_
later_ids m n [] h a = a
later_ids m n (i ∷ is_) h (p, a) = (omega arith, later_ids m n is_ h a)

weak_ids :
    (m n : ℕ) (is_ : List Issue)
    → m < n
    → All (λ (i : Issue). n ≤ i.issue_id) is_
    → All (λ (i : Issue). m ≤ i.issue_id) is_
weak_ids m n [] h a = a
weak_ids m n (i ∷ is_) h (p, a) = (omega arith, weak_ids m n is_ h a)

-- The loop over the rows of the query closes each that the run did not see.
module _ (active : List Key) (e : Key → Bool) where
  abbrev picks : Issue → Bool
  picks i = i.is_open && e i.key

  closing :
      (i : Issue) (pre is_ : List Issue)
      → i.is_open ≡ true
      → IsBelow i.issue_id is_
      → All (λ (x : Issue). i.issue_id < x.issue_id) pre
      → (resolve_reconciliation_issue i.issue_id (pre ++ (i ∷ is_))).1
        ≡ pre ++ (record i { is_open = false } ∷ is_)
  closing i pre is_ o b a =
      resolve_past i.issue_id pre (i ∷ is_) a
      ∙ ap (λ (xs : List Issue). pre ++ xs) (resolve_head i is_ o b)

  abbrev Closes : ℕ → List Issue → Type 0
  Closes b is_ =
      (pre : List Issue)
      → All (λ (x : Issue). b ≤ x.issue_id) pre
      → resolve_each active (keep picks is_) (pre ++ is_) ≡ pre ++ map (close active e) is_

  resolve_each_next :
      (b : ℕ) (pre is_ : List Issue) (j : Issue)
      → j.issue_id < b
      → All (λ (x : Issue). b ≤ x.issue_id) pre
      → Closes j.issue_id is_
      → resolve_each active (keep picks is_) (pre ++ (j ∷ is_))
        ≡ pre ++ (j ∷ map (close active e) is_)
  resolve_each_next b pre is_ j h a next =
      rw
        (
          sym (append_assoc pre (j ∷ []) is_),
          sym (append_assoc pre (j ∷ []) (map (close active e) is_)),
        )
        (next (pre ++ (j ∷ [])) (
          All-append (λ (x : Issue). j.issue_id ≤ x.issue_id) pre (j ∷ [])
            (weak_ids j.issue_id b pre h a) (omega arith, tt)))

  abbrev after : Issue → List Issue → List Issue → Bool → List Issue
  after i pre is_ a = resolve_each active (keep picks is_) (resolve_one a i (pre ++ (i ∷ is_)))

  resolve_each_case :
      (b : ℕ) (pre is_ : List Issue) (i : Issue) (p a : Bool)
      → picks i ≡ p
      → has_key i.key active ≡ a
      → i.issue_id < b
      → IsBelow i.issue_id is_
      → All (λ (x : Issue). b ≤ x.issue_id) pre
      → Closes i.issue_id is_
      → resolve_each active (if p then i ∷ keep picks is_ else keep picks is_) (pre ++ (i ∷ is_))
        ≡ pre
          ++ ((if p && not a then record i { is_open = false } else i) ∷ map (close active e) is_)
  unfolding resolve_each
  resolve_each_case b pre is_ i false a hp ha h hs past next =
      resolve_each_next b pre is_ i h past next
  resolve_each_case b pre is_ i true true hp ha h hs past next =
      ap (after i pre is_) ha ∙ resolve_each_next b pre is_ i h past next
  resolve_each_case b pre is_ i true false hp ha h hs past next =
      ap (after i pre is_) ha
      ∙ ap (resolve_each active (keep picks is_))
          (closing i pre is_ (ground (arith, hp)) hs (later_ids i.issue_id b pre h past))
      ∙ resolve_each_next b pre is_ (record i { is_open = false }) h past next

  resolve_each_lem : (b : ℕ) (is_ : List Issue) → IsBelow b is_ → Closes b is_
  unfolding IsBelow close resolve_each
  resolve_each_lem b [] h pre a = refl
  resolve_each_lem b (i ∷ is_) (h, hs) pre a =
      resolve_each_case b pre is_ i (picks i) (has_key i.key active) refl refl h hs a
        (resolve_each_lem i.issue_id is_ hs)

pub resolve_stale_entry_lock_issues_lem :
    {F : Type 0} (v : Service) (s : Recon F) (n : ℕ)
    → IsBelow n s.core.issues
    → (resolve_stale_entry_lock_issues v s).core
      ≡ record s.core { issues = map (close s.core.active (is_eligible v s.summary)) s.core.issues }
unfolding resolve_stale_entry_lock_issues eligible_issues count resolve_rows
resolve_stale_entry_lock_issues_lem v s n h =
    let e = is_eligible v s.summary in
    resolve_rows-core (eligible_issues v s.summary s.core.issues) ([], s)
    ∙ ap (λ (is_ : List Issue). record s.core { issues = is_ })
        (resolve_each_lem s.core.active e n s.core.issues h [] tt)

pub is_eligible_same :
    (v : Service) (m : Summary) (a b : Key)
    → same_key a b ≡ true
    → is_eligible v m a ≡ is_eligible v m b
unfolding is_eligible
is_eligible_same v m a b h = ground arith

close_fields :
    (active : List Key) (e : Key → Bool) (i : Issue)
    → ((close active e i).key ≡ i.key)
      × ((close active e i).issue_id ≡ i.issue_id)
      × ((close active e i).is_open ≡ i.is_open && not (e i.key && not (has_key i.key active)))
unfolding close
close_fields active e i = ground arith

-- A closed row counts for no key, and the others as before.
closed_or_rest :
    (o same e e' h h' rest : Bool)
    → (same ≡ true → e ≡ e')
    → (same ≡ true → h ≡ h')
    → ((o && not (e && not h)) && same) || (rest && not (e' && not h'))
      ≡ ((o && same) || rest) && not (e' && not h')
closed_or_rest o same e e' h h' rest p q = ground (arith, p, q)

fewer :
    (o x same : Bool) (m n : ℕ)
    → m ≤ n
    → (if (o && x) && same then 1 else 0) + m ≤ (if o && same then 1 else 0) + n
fewer o x same m n h = ground arith

module _ (active : List Key) (e : Key → Bool) where
  pub any_open-close :
      ((a b : Key) → same_key a b ≡ true → e a ≡ e b)
      → (k : Key) (is_ : List Issue)
      → any_open k (map (close active e) is_)
        ≡ any_open k is_ && not (e k && not (has_key k active))
  unfolding any_open
  any_open-close same k [] = refl
  any_open-close same k (i ∷ is_) =
      let (key, _, op) = close_fields active e i in
      rw (key, op, any_open-close same k is_)
        (closed_or_rest i.is_open (same_key i.key k) (e i.key) (e k) (has_key i.key active)
          (has_key k active) (any_open k is_) (same i.key k) (has_key_same i.key k active))

  pub count_open-close :
      (k : Key) (is_ : List Issue) → count_open k (map (close active e) is_) ≤ count_open k is_
  unfolding count_open
  count_open-close k [] = omega arith
  count_open-close k (i ∷ is_) =
      let (key, _, op) = close_fields active e i in
      rw (key, op) (fewer i.is_open _ (same_key i.key k) _ _ (count_open-close k is_))

  pub IsBelow-close :
      (n : ℕ) (is_ : List Issue) → IsBelow n is_ → IsBelow n (map (close active e) is_)
  unfolding IsBelow
  IsBelow-close n [] h = h
  IsBelow-close n (i ∷ is_) (h, hs) =
      let (_, number, _) = close_fields active e i in rw number (h, IsBelow-close i.issue_id is_ hs)
