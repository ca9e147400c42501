-- ===== src/Recon/Ledger.antt =====
-- The issues of src/botik/execution/reconciliation_service.py: which keys have an open row, and
-- what reporting one changes.
use botik.Base.{
  ℕ, suc, ◌+◌, ◌≤◌, ◌<◌, ◌≡◌, refl, Bool, true, false, not, ◌&&◌, ◌||◌, Option, none, some, List,
  [], ◌∷◌, if◌then◌else◌, is_some, arith,
}
use botik.Recon.Issues.{
  Key, Issue, Severity, Core, same_key, find_open, has_key, is_lock, has_symbol, note_active,
  insert_reconciliation_issue, issue_once, issue_of_row,
}

-- A key that reconciliation locks entries by.
abbrev pub is_lock_key : Key → Bool
is_lock_key k = is_lock k.issue_type && has_symbol k.symbol

unfoldable pub any_open : Key → List Issue → Bool
any_open k [] = false
any_open k (i ∷ is_) = (i.is_open && same_key i.key k) || any_open k is_

unfoldable pub count_open : Key → List Issue → ℕ
count_open k [] = 0
count_open k (i ∷ is_) = (if i.is_open && same_key i.key k then 1 else 0) + count_open k is_

-- The numbers go down, from below a bound.
unfoldable pub IsBelow : ℕ → List Issue → Type 0
IsBelow n [] = Unit
IsBelow n (i ∷ is_) = (i.issue_id < n) × IsBelow i.issue_id is_

-- Every row was given its number once, and a key has one open row at most.
unfoldable pub IsSound : Core → Type 0
IsSound c = IsBelow c.next_id c.issues × ((k : Key) → count_open k c.issues ≤ 1)

pub IsBelow-later : (m n : ℕ) (is_ : List Issue) → m ≤ n → IsBelow m is_ → IsBelow n is_
unfolding IsBelow
IsBelow-later m n [] h b = b
IsBelow-later m n (i ∷ is_) h (p, b) = (omega arith, b)

pub same_key_sym : (a b : Key) → same_key a b ≡ true → same_key b a ≡ true
same_key_sym a b h = ground arith

pub same_key_trans : (a b c : Key) → same_key a b ≡ true → same_key b c ≡ true → same_key a c ≡ true
same_key_trans a b c h k = ground arith

pub any_open_same :
    (a b : Key) (is_ : List Issue) → same_key a b ≡ true → any_open a is_ ≡ any_open b is_
unfolding any_open
any_open_same a b [] h = refl
any_open_same a b (i ∷ is_) h = ground (
  arith,
  any_open_same a b is_ h,
  same_key_trans i.key a b,
  same_key_trans i.key b a,
  same_key_sym a b h,
)

pub has_key_same : (a b : Key) (ks : List Key) → same_key a b ≡ true → has_key a ks ≡ has_key b ks
unfolding has_key
has_key_same a b [] h = refl
has_key_same a b (i ∷ is_) h =
    ground (
      arith,
      has_key_same a b is_ h,
      same_key_trans i a b,
      same_key_trans i b a,
      same_key_sym a b h,
    )

pub find_open_lem : (k : Key) (is_ : List Issue) → is_some (find_open k is_) ≡ any_open k is_
unfolding find_open any_open
find_open_lem k [] = refl
find_open_lem k (i ∷ is_) = ground (arith, find_open_lem k is_)

pub count_open-any_open :
    (k : Key) (is_ : List Issue) → any_open k is_ ≡ false → count_open k is_ ≡ 0
unfolding any_open count_open
count_open-any_open k [] h = refl
count_open-any_open k (i ∷ is_) h = ground (arith, count_open-any_open k is_)

pub note_active_issues :
    (k : Key) (c : Core)
    → ((note_active k c).issues ≡ c.issues) × ((note_active k c).next_id ≡ c.next_id)
unfolding note_active
note_active_issues k c = ground arith

pub note_active-active :
    (j k : Key) (c : Core)
    → has_key j (note_active k c).active ≡ has_key j c.active || (is_lock_key k && same_key k j)
unfolding note_active has_key
note_active-active j k c = ground (arith, has_key_same k j c.active)

-- A report adds a row only if none is open.
abbrev pub new_issue : ℕ → Key → Severity → Core → Issue
new_issue n k severity c = record {
  issue_id = c.next_id;
  run_id = n;
  key = k;
  severity = severity;
  is_open = true;
}

abbrev add_issue : Bool → ℕ → Key → Severity → Core → Core
add_issue true n k severity c = c
add_issue false n k severity c = record c {
  issues = new_issue n k severity c ∷ c.issues;
  next_id = suc c.next_id;
}

issue_of_row_lem :
    (o : Option ℕ) (n : ℕ) (k : Key) (severity : Severity) (c : Core)
    → (issue_of_row o n k severity c).1 ≡ note_active k (add_issue (is_some o) n k severity c)
unfolding issue_of_row insert_reconciliation_issue
issue_of_row_lem none n k severity c = refl
issue_of_row_lem (some m) n k severity c = refl

pub issue_once_lem :
    (n : ℕ) (k : Key) (severity : Severity) (c : Core)
    → (issue_once n k severity c).1 ≡ note_active k (add_issue (any_open k c.issues) n k severity c)
unfolding issue_once
issue_once_lem n k severity c =
    rw (← find_open_lem k c.issues) (issue_of_row_lem (find_open k c.issues) n k severity c)

module _ (n : ℕ) (j k : Key) (severity : Severity) (c : Core) where
  -- A report leaves the other keys as they are, and its own open.
  pub any_open-issue_once :
      any_open j (issue_once n k severity c).1.issues ≡ any_open j c.issues || same_key k j
  unfolding any_open
  any_open-issue_once =
      rw (issue_once_lem n k severity c, (note_active_issues k _).0)
        (ground (arith, any_open_same k j c.issues))

  pub has_key-issue_once :
      has_key j (issue_once n k severity c).1.active
      ≡ has_key j c.active || (is_lock_key k && same_key k j)
  has_key-issue_once = rw (issue_once_lem n k severity c, note_active-active j k _) (ground arith)

  pub count_open-issue_once :
      count_open j (issue_once n k severity c).1.issues
      ≡ (if same_key k j && not (any_open j c.issues) then 1 else 0) + count_open j c.issues
  unfolding count_open
  count_open-issue_once =
      rw (issue_once_lem n k severity c, (note_active_issues k _).0)
        (ground (arith, any_open_same k j c.issues))

IsBelow-add_issue :
    (b : Bool) (n : ℕ) (k : Key) (severity : Severity) (c : Core)
    → IsBelow c.next_id c.issues
    → IsBelow (add_issue b n k severity c).next_id (add_issue b n k severity c).issues
unfolding IsBelow
IsBelow-add_issue true n k severity c h = h
IsBelow-add_issue false n k severity c h = (omega arith, h)

pub IsBelow-issue_once :
    (n : ℕ) (k : Key) (severity : Severity) (c : Core)
    → IsBelow c.next_id c.issues
    → IsBelow (issue_once n k severity c).1.next_id (issue_once n k severity c).1.issues
IsBelow-issue_once n k severity c h =
    let b = any_open k c.issues in
    rw
      (
        issue_once_lem n k severity c,
        (note_active_issues k (add_issue b n k severity c)).0,
        (note_active_issues k (add_issue b n k severity c)).1,
      )
      (IsBelow-add_issue b n k severity c h)

pub IsSound-issue_once :
    (n : ℕ) (k : Key) (severity : Severity) (c : Core)
    → IsSound c
    → IsSound (issue_once n k severity c).1
unfolding IsSound
IsSound-issue_once n k severity c (b, one) = (
  IsBelow-issue_once n k severity c b,
  λ j.
      rw (count_open-issue_once n j k severity c)
        (ground (arith, one j, count_open-any_open j c.issues)),
)
