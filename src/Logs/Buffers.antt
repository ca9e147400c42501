-- ===== src/Logs/Buffers.antt =====
-- What a channel keeps and delivers of the entries that are published.
use botik.Base.{
  ℕ, ◌≡◌, refl, sym, ap, ◌∙◌, ◌==◌, true, Option, none, some, List, [], ◌∷◌, ◌++◌, All, keep,
  keep-append, length, take_last, take_last-append, append-nil, append_assoc, if◌then◌else◌, ltb,
  leb, arith, Dict, lookup, insert, lookup-insert, Bool-cases, inl, inr,
}
use botik.Logs.Manager.{
  LogEntry, ChannelState, LogsManager, Snapshot, put_all, push_entry, publish, last_entries,
}

abbrev and_then : Option LogsManager → (LogsManager → Option LogsManager) → Option LogsManager
and_then none f = none
and_then (some m) f = f m

-- A run of publications, which stops where one raises.
unfoldable pub publish_all : List LogEntry → LogsManager → Option LogsManager
publish_all [] m = some m
publish_all (e ∷ es) m = and_then (publish e m) λ m'. publish_all es m'

-- The entries of a channel.
abbrev pub of_channel : ℕ → List LogEntry → List LogEntry
of_channel k = keep λ e. e.channel == k

abbrev pub IsKnown : LogsManager → LogEntry → Type 0
IsKnown m e = (c : ChannelState) × (lookup e.channel m.channels ≡ some c)

abbrev pub queue_then : List LogEntry → Option (List LogEntry) → Option (List LogEntry)
queue_then es none = none
queue_then es (some q) = some (q ++ es)

lookup-put_all :
    (s : ℕ) (e : LogEntry) (subs : Dict (List LogEntry))
    → lookup s (put_all e subs) ≡ queue_then (e ∷ []) (lookup s subs)
unfolding put_all lookup
lookup-put_all s e [] = refl
lookup-put_all s e ((t, q) ∷ subs) = ground (arith, lookup-put_all s e subs)

queue_same : (q : Option (List LogEntry)) → q ≡ queue_then [] q
queue_same none = refl
queue_same (some q) = ap some (sym (append-nil q))

queue_both :
    (xs ys : List LogEntry) (q : Option (List LogEntry))
    → queue_then ys (queue_then xs q) ≡ queue_then (xs ++ ys) q
queue_both xs ys none = refl
queue_both xs ys (some q) = ap some (append_assoc q xs ys)

some_inj : (c d : ChannelState) → some c ≡ some d → c ≡ d
some_inj c d h = ground arith

-- The manager after a publication in a known channel.
abbrev published : LogEntry → ChannelState → LogsManager → LogsManager
published e c m = record m {
  channels = insert e.channel (push_entry m.buffer_size m.has_loop e c) m.channels;
}

publish_lem :
    (e : LogEntry) (m : LogsManager) (c : ChannelState)
    → lookup e.channel m.channels ≡ some c
    → publish e m ≡ some (published e c m)
unfolding publish
publish_lem e m c h = ground (arith, h)

IsKnown-later :
    (e : LogEntry) (m : LogsManager) (c : ChannelState) (es : List LogEntry)
    → All (IsKnown m) es
    → All (IsKnown (published e c m)) es
IsKnown-later e m c [] known = tt
IsKnown-later e m c (f ∷ fs) ((d, h), known) =
    let d' = push_entry m.buffer_size m.has_loop e c in
    (
      elim (Bool-cases (f.channel == e.channel)) [
        | inl t ↦ (d', ground (arith, t, lookup-insert f.channel e.channel d' m.channels))
        | inr t ↦ (d, ground (arith, t, h, lookup-insert f.channel e.channel d' m.channels))
      ],
      IsKnown-later e m c fs known,
    )

-- The channel `k` of the manager keeps the end of `past`, and its subscriber `s` has the queue.
abbrev pub Holds : LogsManager → (k s : ℕ) → List LogEntry → Option (List LogEntry) → Type 0
Holds m k s past queue =
    (c : ChannelState) × (lookup k m.channels ≡ some c)
    × (c.entries ≡ take_last m.buffer_size past)
    × (lookup s c.subscribers ≡ queue)

publish-Holds :
    (e : LogEntry) (m : LogsManager) (c : ChannelState)
    → lookup e.channel m.channels ≡ some c
    → m.has_loop ≡ true
    → (k s : ℕ) (past : List LogEntry) (queue : Option (List LogEntry)) → Holds m k s past queue
    → Holds
        (published e c m)
        k
        s
        (past ++ of_channel k (e ∷ []))
        (queue_then (of_channel k (e ∷ [])) queue)
unfolding push_entry
publish-Holds e m c h loop k s past queue (d, hd, he, hq) =
    let c' = push_entry m.buffer_size m.has_loop e c in
    elim (Bool-cases (e.channel == k)) [
      | inl t ↦
          let same : c ≡ d =
            some_inj c d (sym h ∙ ap (λ j. lookup j m.channels) (ground arith) ∙ hd) in
          (
            c',
            ground (arith, t, lookup-insert k e.channel c' m.channels),
            rw t (
                ap (λ x. take_last m.buffer_size (x.entries ++ e ∷ [])) same
                ∙ ap (λ xs. take_last m.buffer_size (xs ++ e ∷ [])) he
                ∙ take_last-append m.buffer_size past e),
            rw (t, loop)
                (lookup-put_all s e c.subscribers
                  ∙ ap (λ x. queue_then (e ∷ []) (lookup s x.subscribers)) same
                  ∙ ap (λ q. queue_then (e ∷ []) q) hq),
          )
      | inr t ↦ (
        d,
        ground (arith, t, hd, lookup-insert k e.channel c' m.channels),
        rw (t, append-nil past) he,
        rw t (hq ∙ queue_same queue),
      )
    ]

-- Publications in registered channels, once the event loop is known, do not raise; each channel
-- then keeps the last entries that were published in it, as many as the buffer takes, and the
-- queue of each of its subscribers has every entry of the channel added, in order, with none of
-- another channel.
pub publish_all_delivers :
    (es : List LogEntry) (m : LogsManager)
    → All (IsKnown m) es
    → m.has_loop ≡ true
    → (k s : ℕ) (past : List LogEntry) (queue : Option (List LogEntry)) → Holds m k s past queue
    → (m' : LogsManager) × (publish_all es m ≡ some m')
      × (m'.buffer_size ≡ m.buffer_size)
      × Holds m' k s (past ++ of_channel k es) (queue_then (of_channel k es) queue)
unfolding publish_all
publish_all_delivers [] m known loop k s past queue (c, hc, he, hq) =
    (m, refl, refl, (c, hc, rw (append-nil past) he, hq ∙ queue_same queue))
publish_all_delivers (e ∷ es) m ((c, h), known) loop k s past queue held =
    let here = of_channel k (e ∷ []) in
    let rest = of_channel k es in
    let all : of_channel k (e ∷ es) ≡ here ++ rest =
      keep-append (λ x. x.channel == k) (e ∷ []) es in
    let later =
      publish_all_delivers es (published e c m) (IsKnown-later e m c es known) loop k s
        (past ++ here) (queue_then here queue) (publish-Holds e m c h loop k s past queue held) in
    let (m', ran, size, (d, hd, he, hq)) = later in
    (
      m',
      ap (λ r. and_then r λ x. publish_all es x) (publish_lem e m c h) ∙ ran,
      size,
      (
        d,
        hd,
        he
            ∙ ap (λ xs. take_last m'.buffer_size xs)
                (append_assoc past here rest ∙ ap (λ xs. past ++ xs) (sym all)),
        hq ∙ queue_both here rest queue ∙ ap (λ xs. queue_then xs queue) (sym all),
      ),
    )

abbrev pub lesser : ℕ → ℕ → ℕ
lesser a b = if leb a b then a else b

abbrev snapshot_of : ℕ → List LogEntry → Snapshot
snapshot_of n xs = record {
  entries = last_entries n xs;
  truncated = ltb (length (last_entries n xs)) (length xs);
}
