-- ===== src/Tests/Following.antt =====
-- Readers that follow the logs and the inbox of Logs and Inbox.
use any_sync_coordinator.Prelude.{
  ℕ, String, ◌≡◌, ◌≢◌, refl, [], ◌∷◌, ◌++◌, map, select, inl, inr, arith, Bool-cases, ◌=ₛ◌,
}
use any_sync_coordinator.Outcome.{driver, ok, err, lift, ◌>>=◌}
use any_sync_coordinator.Docs.{World, DeletionRecord, AclEventLogEntry}
use any_sync_coordinator.Mongo.Ordered.{IsOrdered}
use any_sync_coordinator.Mongo.Memory.{memory, memory-Documented}
use any_sync_coordinator.Coordinator.{Parts, tree}
use any_sync_coordinator.DeletionLog as D
use any_sync_coordinator.AclEventLog as A
use any_sync_coordinator.AclEventLog.Paging.{owned_by}
use any_sync_coordinator.AclEventLog.Following.{owner_log, reader_catches_up}
use any_sync_coordinator.Inbox.{InboxMessage, Messages, fetch_limit, inbox_fetch, offset_query}
use any_sync_coordinator.Inbox.Fetching.{sent_to}
use any_sync_coordinator.Inbox.Following.{receiver_log, receiver_follows, receiver_catches_up}
use any_sync_coordinator.Paged.{PagedLog, page, Reads}
use any_sync_coordinator.Paged.Following.{
  Reach, start, later, append, polled, poll, polls, last_cursor,
}
use any_sync_coordinator.RpcHandler.Logs.{ApiRecord}
use any_sync_coordinator.RpcHandler.Following.{log_entry, node_log, node_catches_up}
use any_sync_coordinator.SpaceStatus.Reach.{empty}
use any_sync_coordinator.Tests.{keys}
use any_sync_coordinator.Tests.Calls.{parts, request}
use any_sync_coordinator.Tests.Inbox.{messages}
use any_sync_coordinator.Tests.Logs.{logs}

-- The coordinator's parts where every peer is a node of the network.
abbrev net : Parts String
net = record parts { node_conf = record parts.node_conf { node_types = λ peer. tree ∷ [] } }

abbrev nodes_log : PagedLog World ApiRecord
nodes_log = node_log memory-Documented keys net request 2 "peer" tree [] refl refl

abbrev entry_shown : DeletionRecord → ApiRecord
entry_shown = log_entry memory-Documented keys net request 2 "peer" tree [] refl refl

-- The log grows from nothing, and the node asks once.
node_read : Reach nodes_log empty logs (poll nodes_log logs [])
node_read =
    later
      (later start (
        append {w' = logs} (map entry_shown logs.deletion_log)
          ((omega arith, (omega arith, tt)), ((omega arith, tt), (tt, tt))) refl))
      (polled refl)

node_catches_up_example :
    polls nodes_log 2 logs (poll nodes_log logs []) ≡ map entry_shown logs.deletion_log
unfolding D.effective_limit
node_catches_up_example =
    node_catches_up memory-Documented keys net request 2 "peer" tree [] refl refl tt node_read
      (λ q. refl) 2 (omega arith)

-- The events of bob.
abbrev bobs_log : PagedLog World AclEventLogEntry
bobs_log = owner_log memory-Documented 1 "bob" refl

bobs_log-IsOrdered : IsOrdered (λ r. r.id) logs.acl_event_log
bobs_log-IsOrdered = ((omega arith, (omega arith, tt)), ((omega arith, tt), (tt, tt)))

reader_read : Reach bobs_log logs logs (poll bobs_log logs [])
reader_read = later start (polled refl)

reader_catches_up_example :
    polls bobs_log 2 logs (poll bobs_log logs []) ≡ select (owned_by "bob") logs.acl_event_log
unfolding A.effective_limit
reader_catches_up_example =
    reader_catches_up memory-Documented 1 "bob" refl bobs_log-IsOrdered reader_read (λ q. refl) 2
      (omega arith)

-- The messages to bob.
abbrev bobs_messages : PagedLog Messages InboxMessage
bobs_messages = receiver_log memory-Documented keys "bob" 1

messages-IsOrdered : IsOrdered (λ x. x.id) messages
messages-IsOrdered = ((omega arith, (omega arith, tt)), ((omega arith, tt), (tt, tt)))

receiver_read : Reach bobs_messages messages messages (poll bobs_messages messages [])
receiver_read = later start (polled refl)

receiver_follows_example :
    (rest : Messages) × (select (sent_to "bob") messages ≡ poll bobs_messages messages [] ++ rest)
    × Reads
        (inbox_fetch memory keys
          (ok "bob")
          1
          (last_cursor bobs_messages (poll bobs_messages messages [])))
        messages
        (page (fetch_limit 1) rest)
receiver_follows_example =
    receiver_follows memory-Documented keys "bob" 1 messages-IsOrdered receiver_read

inbox_steady :
    (i : String) (n : ℕ) → (inbox_fetch memory keys (ok "bob") 1 i messages).0 ≢ err (driver n)
unfolding inbox_fetch offset_query lift ◌>>=◌
inbox_steady String.[] n h = cc h
inbox_steady (String.◌∷◌ c s) n h = elim (Bool-cases (String.◌∷◌ c s =ₛ "")) [
  | inl p ↦ absurd (cc (rw p at h))
  | inr p ↦ absurd (cc (rw p at h))
]

receiver_catches_up_example :
    polls bobs_messages 2 messages (poll bobs_messages messages [])
    ≡ select (sent_to "bob") messages
unfolding fetch_limit
receiver_catches_up_example =
    receiver_catches_up memory-Documented keys "bob" 1 messages-IsOrdered receiver_read inbox_steady
      2 (omega arith)
