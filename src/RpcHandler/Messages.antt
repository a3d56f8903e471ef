-- ===== src/RpcHandler/Messages.antt =====
-- coordinator/rpchandler.go: InboxFetch, InboxAddMessage and NotifySubscribe, and inbox/message.go:
-- InboxMessageToResponse.
use any_sync_coordinator.Prelude.{ℕ, String, Bool, List, map}
use any_sync_coordinator.Outcome.{ok, Action, lift, pure, ◌>>=◌, ◌>>◌}
use any_sync_coordinator.Mongo.{Mongo}
use any_sync_coordinator.Keys.{Keys}
use any_sync_coordinator.Coordinator.{Request}
use any_sync_coordinator.Inbox.{
  InboxMessage, InboxPacket, Messages, AddRequest, inbox_add_message, inbox_fetch,
}
use any_sync_coordinator.Subscribe.{Stream, Streams, Subscription, add_stream}

-- coordinatorproto.InboxMessage, whose packet has the same fields.
pub record ApiMessage : Type 0 where
  pub id : String
  pub packet_type : ℕ
  pub packet : InboxPacket

module _ (m : Mongo) where
  unfoldable pub message_to_response : InboxMessage → ApiMessage
  message_to_response msg = record {
    id = m.hex msg.id;
    packet_type = msg.packet_type;
    packet = msg.packet;
  }

  module _ (k : Keys) (req : Request k.PubKey) where
    -- InboxFetch
    unfoldable pub fetch_messages : ℕ → String → Action Messages (List ApiMessage × Bool)
    fetch_messages configured offset = do
      result ← inbox_fetch m k req.pub_key configured offset
      pure (map message_to_response result.0, result.1)

    -- InboxAddMessage, whose response is empty
    unfoldable pub handle_inbox_add_message : AddRequest → Action Messages (Unit {0})
    handle_inbox_add_message r = do inbox_add_message m k req.pub_key req.now r; pure tt

module _ (k : Keys) (req : Request k.PubKey) where
  -- NotifySubscribe, until it waits for the end of its stream: the error of AddStream is dropped.
  unfoldable pub notify_subscribe : ℕ → Stream → Action Streams (Unit {0})
  notify_subscribe event_type stream = do
    key ← lift req.pub_key
    peer_id ← lift req.peer_id
    let subscription : Subscription = record {
      event_type = event_type;
      account_id = k.account key;
      peer_id = peer_id;
      stream = stream;
    }
    (λ streams. (ok tt, (add_stream subscription streams).1))
