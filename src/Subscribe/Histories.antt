-- ===== src/Subscribe/Histories.antt =====
-- Histories of subscriptions: peers subscribe, streams end, and accounts are notified, in any order.
use any_sync_coordinator.Prelude.{
  ℕ, String, Bool, true, false, ◌||◌, ◌&&◌, ◌≡◌, some, List, [], ◌∷◌, ◌++◌, ◌==◌, All,
}
use any_sync_coordinator.Prelude.Assoc.{lookup}
use any_sync_coordinator.Outcome.{Result, ok, err}
use any_sync_coordinator.Subscribe.{
  Stream, Accounts, Streams, Subscription, init_streams, add_stream, wait_close_stream,
  notify_all_peers,
}
use any_sync_coordinator.Subscribe.Streams.{stream_at, is_same}
use any_sync_coordinator.Subscribe.WellFormed.{IsWellFormed}

-- The maps of streams, and the goroutines that wait for the end of a stream.
pub record System : Type 0 where
  pub streams : Streams
  pub waiting : List Subscription

-- AddStream starts a goroutine where it succeeds.
abbrev pub registered : Subscription → List Subscription → Result (Unit {0}) × Streams → System
registered n waiting (ok _, st) = record { streams = st; waiting = n ∷ waiting }
registered n waiting (err _, st) = record { streams = st; waiting = waiting }

pub data Step (s : System) : System → Type 0 where
  subscribed : (n : Subscription) → Step s (registered n s.waiting (add_stream n s.streams))
  ended :
      (xs : List Subscription) (n : Subscription) (ys : List Subscription)
      → s.waiting ≡ xs ++ n ∷ ys
      → Step s (record { streams = wait_close_stream n s.streams; waiting = xs ++ ys })
  notified :
      (e : ℕ) (a payload : String) (sends : Stream → Bool)
      → Step s (record s { streams = (notify_all_peers e a payload sends s.streams).1 })

pub data Reach (s : System) : System → Type 0 where
  here : Reach s s
  next : {t u : System} → Reach s t → Step t u → Reach s u

-- Init, by the event types of the protocol.
abbrev pub initial : List ℕ → System
initial es = record { streams = init_streams es; waiting = [] }

abbrev pub IsKnown : Streams → ℕ → Type 0
IsKnown st e = (accounts : Accounts) × (lookup ◌==◌ e st ≡ some accounts)

-- A goroutine waits for the end of this stream, of this event type, account and peer.
abbrev pub is_awaited : ℕ → String → String → Stream → List Subscription → Bool
is_awaited e a p x [] = false
is_awaited e a p x (n ∷ ns) =
    is_same n.event_type n.account_id n.peer_id e a p && n.stream == x || is_awaited e a p x ns

-- The maps are well formed, with a map of accounts for each event type, and for each stream in them
-- a goroutine waits for the end of that very stream, to remove it then.
pub record IsSound (es : List ℕ) (s : System) : Type 0 where
  pub well_formed : IsWellFormed s.streams
  pub known : All (IsKnown s.streams) es
  pub awaited :
      (e : ℕ) (a p : String) (x : Stream)
      → stream_at e a p s.streams ≡ some x
      → is_awaited e a p x s.waiting ≡ true
