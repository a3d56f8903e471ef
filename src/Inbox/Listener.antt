-- ===== src/Inbox/Listener.antt =====
-- inbox/inbox.go: the listener to the change stream of the collection, which notifies the receivers
-- of new messages.
use any_sync_coordinator.Prelude.{ℕ, String, Bool, List, [], ◌∷◌, ◌++◌}
use any_sync_coordinator.Outcome.{Result, ok, err}
use any_sync_coordinator.Mongo.{Mongo}
use any_sync_coordinator.Inbox.{InboxMessage}
use any_sync_coordinator.Subscribe.{Stream, Streams, Sent, notify_all_peers}

-- streamResult: the id of the document, and the document.
pub record StreamResult : Type 0 where
  pub document_key : String
  pub inbox_message : InboxMessage

-- How far the listener has come: the events that were sent, the streams that are left, and whether
-- it goes on.
pub record Listened : Type 0 where
  pub outcome : Result (Unit {0})
  pub sent : Sent
  pub streams : Streams

abbrev after_sent : Sent → Listened → Listened
after_sent sent l = record l { sent = sent ++ l.sent }

-- streamListener, over the changes that Next and Decode give it: a change that cannot be decoded ends
-- the program. `event_type` is NotifyEventType_InboxNewMessageEvent, and `sends` says on which streams
-- a payload can be sent.
unfoldable pub stream_listener :
    ℕ → (String → Stream → Bool) → List (Result StreamResult) → Streams → Listened
stream_listener event_type sends [] streams = record {
  outcome = ok tt;
  sent = [];
  streams = streams;
}
stream_listener event_type sends (err e ∷ changes) streams = record {
  outcome = err e;
  sent = [];
  streams = streams;
}
stream_listener event_type sends (ok r ∷ changes) streams =
    let (sent, streams') =
      notify_all_peers event_type r.inbox_message.packet.receiver_identity r.document_key
        (sends r.document_key) streams in
    after_sent sent (stream_listener event_type sends changes streams')

-- The change that the pipeline of runStreamListener lets through for an inserted message: the `_id`
-- is decoded into a string by its hexadecimal digits.
abbrev pub change_of : Mongo → InboxMessage → Result StreamResult
change_of m msg = ok (record { document_key = m.hex msg.id; inbox_message = msg })

-- Run: the index, and then runStreamListener, whose error is dropped. `created` is what CreateOne
-- returns, and `watched` the stream that Watch returns, by its changes.
unfoldable pub run :
    ℕ
    → (String → Stream → Bool)
    → Result (Unit {0})
    → Result (List (Result StreamResult))
    → Streams
    → Listened
run event_type sends (err e) watched streams = record {
  outcome = err e;
  sent = [];
  streams = streams;
}
run event_type sends (ok _) (err e) streams = record {
  outcome = ok tt;
  sent = [];
  streams = streams;
}
run event_type sends (ok _) (ok changes) streams = stream_listener event_type sends changes streams
