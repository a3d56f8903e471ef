-- ===== src/Subscribe.antt =====
-- subscribe/service.go: the streams by which peers are notified, by event type, account and peer.
pub mod Streams
pub mod Notify
pub mod AnyOrder
pub mod WellFormed
pub mod Histories
pub mod Known
pub mod Awaited
pub mod Sound
pub mod Copies
use any_sync_coordinator.Prelude.{
  ℕ, String, Bool, true, false, Option, none, some, List, [], ◌∷◌, ◌++◌, ◌==◌, ◌=ₛ◌, if◌then◌else◌,
}
use any_sync_coordinator.Prelude.Assoc.{lookup, remove, put}
use any_sync_coordinator.Outcome.{
  nil_dereference, subscribe_peer_already_subscribed, Result, ok, err, Action,
}

-- A stream of a peer; event types are the numbers of coordinatorproto.NotifyEventType.
abbrev pub Stream : Type 0
Stream = ℕ

abbrev pub Peers : Type 0
Peers = List (String × Stream)

abbrev pub Accounts : Type 0
Accounts = List (String × Peers)

abbrev pub Streams : Type 0
Streams = List (ℕ × Accounts)

-- What AddStream is called with, and what its goroutine keeps until the stream ends.
pub record Subscription : Type 0 where
  pub event_type : ℕ
  pub account_id : String
  pub peer_id : String
  pub stream : Stream

-- Reading a Go map gives nil, which has no elements, where the key is missing.
abbrev pub or_empty : {A : Type 0} → Option (List A) → List A
or_empty none = []
or_empty (some l) = l

abbrev pub accounts_of : ℕ → Streams → Accounts
accounts_of e streams = or_empty (lookup ◌==◌ e streams)

abbrev pub peers_of : String → Accounts → Peers
peers_of a accounts = or_empty (lookup ◌=ₛ◌ a accounts)

-- Init: a map of accounts for every event type.
unfoldable pub init_streams : List ℕ → Streams
init_streams [] = []
init_streams (e ∷ es) = put ◌==◌ e [] (init_streams es)

abbrev add_to_peers : Subscription → Accounts → Option Stream → Action Streams (Unit {0})
add_to_peers n accounts (some s) streams = (err subscribe_peer_already_subscribed, streams)
add_to_peers n accounts none streams = (
  ok tt,
  put ◌==◌ n.event_type
      (put ◌=ₛ◌ n.account_id (put ◌=ₛ◌ n.peer_id n.stream (peers_of n.account_id accounts))
        accounts)
      streams,
)

-- The map of an unknown event type is nil, and the assignment to it panics.
abbrev add_to_accounts : Subscription → Option Accounts → Action Streams (Unit {0})
add_to_accounts n none streams = (err nil_dereference, streams)
add_to_accounts n (some accounts) streams =
    add_to_peers n accounts (lookup ◌=ₛ◌ n.peer_id (peers_of n.account_id accounts)) streams

-- AddStream, under the mutex. An account that is there has peers, so the empty map that is made for
-- a new account stays only with the stream in it.
unfoldable pub add_stream : Subscription → Action Streams (Unit {0})
add_stream n streams = add_to_accounts n (lookup ◌==◌ n.event_type streams) streams

abbrev pub without_peer : String → Peers → Accounts → Accounts
without_peer a [] accounts = remove ◌=ₛ◌ a accounts
without_peer a (p ∷ ps) accounts = put ◌=ₛ◌ a (p ∷ ps) accounts

abbrev remove_from : ℕ → String → String → Streams → Option Accounts → Streams
remove_from e a p streams none = streams
remove_from e a p streams (some accounts) =
    put ◌==◌ e (without_peer a (remove ◌=ₛ◌ p (peers_of a accounts)) accounts) streams

-- removeStream: an account without peers is dropped.
unfoldable pub remove_stream : ℕ → String → String → Streams → Streams
remove_stream e a p streams = remove_from e a p streams (lookup ◌==◌ e streams)

-- What the goroutine of a subscription does when its stream has ended: waitCloseStream.
unfoldable pub wait_close_stream : Subscription → Streams → Streams
wait_close_stream n streams = remove_stream n.event_type n.account_id n.peer_id streams

-- coordinatorproto.NotifySubscribeEvent
pub record NotifyEvent : Type 0 where
  pub event_type : ℕ
  pub payload : String

-- The calls of Send, in their order.
abbrev pub Sent : Type 0
Sent = List (Stream × NotifyEvent)

-- The loop over the peers of an account, by the streams that an event can be sent to: those that
-- fail are removed.
unfoldable pub notify_each :
    String → NotifyEvent → (Stream → Bool) → Peers → Streams → Sent × Streams
notify_each a event sends [] streams = ([], streams)
notify_each a event sends ((p, s) ∷ ps) streams =
    let streams' = if sends s then streams else remove_stream event.event_type a p streams in
    let (sent, streams'') = notify_each a event sends ps streams' in ((s, event) ∷ sent, streams'')

-- NotifyAllPeers, under the mutex.
unfoldable pub notify_all_peers : ℕ → String → String → (Stream → Bool) → Streams → Sent × Streams
notify_all_peers e a payload sends streams =
    notify_each a (record { event_type = e; payload = payload }) sends
      (peers_of a (accounts_of e streams)) streams

abbrev streams_of : Peers → List Stream
streams_of [] = []
streams_of ((p, s) ∷ ps) = s ∷ streams_of ps

abbrev streams_of_accounts : Accounts → List Stream
streams_of_accounts [] = []
streams_of_accounts ((a, ps) ∷ accounts) = streams_of ps ++ streams_of_accounts accounts

-- Close: the calls of Close on the streams. The maps stay as they are.
unfoldable pub close_streams : Streams → List Stream
close_streams [] = []
close_streams ((e, accounts) ∷ streams) = streams_of_accounts accounts ++ close_streams streams
