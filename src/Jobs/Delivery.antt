-- ===== src/Jobs/Delivery.antt =====
-- What a subscriber of the bus reads: the end of the past, then all that comes.
use botik.Base.{
  ℕ, ◌-◌, ◌≤◌, ◌≡◌, refl, sym, ap, ◌∙◌, Option, none, some, List, [], ◌∷◌, ◌++◌, length, take_last,
  take_last-append, drop-nil, length-drop, append_assoc, append-nil, Dict, lookup, lookup-insert,
  arith,
}
use botik.Jobs.Types.{Event}
use botik.Jobs.Bus.{Bus, push, put_all, publish, subscribe, publish_all}

module _ {F : Type 0} where
  abbrev put : Event F → Option (List (Event F)) → Option (List (Event F))
  put e none = none
  put e (some q) = some (q ++ (e ∷ []))

  lookup-put_all :
      (s : ℕ) (e : Event F) (subs : Dict (List (Event F)))
      → lookup s (put_all e subs) ≡ put e (lookup s subs)
  unfolding put_all lookup
  lookup-put_all s e [] = refl
  lookup-put_all s e ((t, q) ∷ subs) = ground (arith, lookup-put_all s e subs)

  publish_all-buffer_size :
      (es : List (Event F)) (b : Bus F) → (publish_all es b).buffer_size ≡ b.buffer_size
  unfolding publish_all publish
  publish_all-buffer_size [] b = refl
  publish_all-buffer_size (e ∷ es) b = publish_all-buffer_size es (publish e b)

  publish_all-recent :
      (past es : List (Event F)) (b : Bus F)
      → b.recent ≡ take_last b.buffer_size past
      → (publish_all es b).recent ≡ take_last b.buffer_size (past ++ es)
  unfolding publish_all publish push
  publish_all-recent past [] b h = rw (append-nil past) h
  publish_all-recent past (e ∷ es) b h =
      publish_all-recent (past ++ (e ∷ [])) es (publish e b)
        (ap (λ xs. push b.buffer_size xs e) h ∙ take_last-append b.buffer_size past e)
      ∙ ap (take_last b.buffer_size) (append_assoc past (e ∷ []) es)

  publish_all-queue :
      (s : ℕ) (q es : List (Event F)) (b : Bus F)
      → lookup s b.subscribers ≡ some q
      → lookup s (publish_all es b).subscribers ≡ some (q ++ es)
  unfolding publish_all publish
  publish_all-queue s q [] b h = rw (append-nil q) h
  publish_all-queue s q (e ∷ es) b h =
      publish_all-queue s (q ++ (e ∷ [])) es (publish e b)
        (lookup-put_all s e b.subscribers ∙ ap (put e) h)
      ∙ ap some (append_assoc q (e ∷ []) es)

-- The bus of a new `EventPublisher`.
abbrev pub new_bus : {F : Type 0} → ℕ → Bus F
new_bus n = record { buffer_size = n; recent = []; subscribers = [] }

module _ {F : Type 0} where
  -- A client that subscribes reads first the last `n` events of the past, with `n` the size of the
  -- buffer; its queue then receives every later event, once each and in order.
  pub subscribe_delivers :
      (n s : ℕ) (past later : List (Event F))
      → let (replay, b) = subscribe s (publish_all past (new_bus n)) in
        (replay ≡ take_last n past) × (lookup s (publish_all later b).subscribers ≡ some later)
  unfolding subscribe
  subscribe_delivers n s past later = (
    publish_all-recent [] past (new_bus n) (sym (drop-nil (0 - n))),
    publish_all-queue s [] later (subscribe s (publish_all past (new_bus n))).1
        (ground (arith, lookup-insert s s [] (publish_all past (new_bus n)).subscribers)),
  )

  -- The buffer never holds more than its size.
  pub recent-bound :
      (n : ℕ) (past : List (Event F)) → length (publish_all past (new_bus n)).recent ≤ n
  recent-bound n past =
      rw (publish_all-recent [] past (new_bus n) (sym (drop-nil (0 - n))))
        (omega (arith, length-drop (length past - n) past))
