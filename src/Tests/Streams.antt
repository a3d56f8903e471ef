-- ===== src/Tests/Streams.antt =====
-- The theorems on subscriptions, at an account with two peers.
use any_sync_coordinator.Prelude.{ℕ, String, ◌==◌, ◌≡◌, refl, none, [], ◌∷◌, if◌then◌else◌}
use mathlib.Core.List.{Perm}
use mathlib.Core.List.Perm
use any_sync_coordinator.Subscribe.AnyOrder.{notify_all_peers-any_order}
use any_sync_coordinator.Subscribe.{
  NotifyEvent, notify_each, notify_all_peers, Streams, Accounts, Subscription, add_stream,
  wait_close_stream,
}
use any_sync_coordinator.Subscribe.Streams.{
  stream_at, is_same, Added, add_stream-Added, wait_close_stream-at,
}

abbrev pub accounts : Accounts
accounts = ("bob", ("phone", 1) ∷ ("laptop", 2) ∷ []) ∷ []

abbrev pub streams : Streams
streams = (0, accounts) ∷ []

abbrev pub tablet : Subscription
tablet = record { event_type = 0; account_id = "bob"; peer_id = "tablet"; stream = 3 }

-- An older stream of the laptop, which has another one now.
abbrev old_laptop : Subscription
old_laptop = record { event_type = 0; account_id = "bob"; peer_id = "laptop"; stream = 9 }

add_stream-Added_example : Added tablet 0 "bob" "tablet" streams (add_stream tablet streams)
add_stream-Added_example = add_stream-Added tablet streams accounts refl 0 "bob" "tablet"

wait_close_stream-at_example : stream_at 0 "bob" "laptop" (wait_close_stream old_laptop streams) ≡ (
    if is_same 0 "bob" "laptop" 0 "bob" "laptop" then none else stream_at 0 "bob" "laptop" streams)
wait_close_stream-at_example = wait_close_stream-at old_laptop streams 0 "bob" "laptop"

-- The laptop of bob is told before his phone.
notify_all_peers-any_order_example :
    let event : NotifyEvent = record { event_type = 0; payload = "id" } in
    Perm
      (notify_all_peers 0 "bob" "id" (λ s. s == 2) streams).0
      (notify_each "bob" event (λ s. s == 2) (("laptop", 2) ∷ ("phone", 1) ∷ []) streams).0
    × ((e' : ℕ) (a' p : String)
        → stream_at e' a' p (notify_all_peers 0 "bob" "id" (λ s. s == 2) streams).1
          ≡ stream_at e' a' p
              (notify_each "bob" event (λ s. s == 2) (("laptop", 2) ∷ ("phone", 1) ∷ []) streams).1)
notify_all_peers-any_order_example =
    notify_all_peers-any_order 0 "bob" "id" (λ s. s == 2) streams
      (("laptop", 2) ∷ ("phone", 1) ∷ []) (Perm.swap ("laptop", 2) ("phone", 1) [])
