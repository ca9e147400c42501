-- ===== src/Jobs/Bus.antt =====
-- `EventPublisher` (jobs/event_publisher.py). The queue of a subscriber has no bound, so a `put`
-- never waits and a publication is one step.
use botik.Base.{ℕ, List, [], ◌∷◌, ◌++◌, take_last, Dict, insert, erase}
use botik.Jobs.Types.{Event}

-- `deque.append` under `maxlen`.
unfoldable pub push {ℓ} : {A : Type ℓ} → ℕ → List A → A → List A
push maxlen xs x = take_last maxlen (xs ++ (x ∷ []))

pub record Bus (F : Type 0) : Type 0 where
  pub buffer_size : ℕ
  pub recent : List (Event F)
  -- each subscriber with its queue
  pub subscribers : Dict (List (Event F))

module _ {F : Type 0} where
  unfoldable pub put_all : Event F → Dict (List (Event F)) → Dict (List (Event F))
  put_all e [] = []
  put_all e ((s, q) ∷ subs) = (s, q ++ (e ∷ [])) ∷ put_all e subs

  -- `_publish`
  unfoldable pub publish : Event F → Bus F → Bus F
  unfolding push put_all
  publish e b = record b {
    recent = push b.buffer_size b.recent e;
    subscribers = put_all e b.subscribers;
  }

  -- The part of `subscribe` before the first wait: the new queue is registered, and what is in the
  -- buffer is what the subscriber reads first. The events to come are in the queue.
  unfoldable pub subscribe : ℕ → Bus F → List (Event F) × Bus F
  subscribe s b = (b.recent, record b { subscribers = insert s [] b.subscribers })

  -- `finally` of `subscribe`
  unfoldable pub unsubscribe : ℕ → Bus F → Bus F
  unsubscribe s b = record b { subscribers = erase s b.subscribers }

  unfoldable pub publish_all : List (Event F) → Bus F → Bus F
  publish_all [] b = b
  publish_all (e ∷ es) b = publish_all es (publish e b)
