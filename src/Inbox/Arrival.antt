-- ===== src/Inbox/Arrival.antt =====
-- A message on its way: InboxAddMessage, the listener, and InboxFetch.
use any_sync_coordinator.Prelude.{
  ℕ, zero, suc, String, Bool, true, false, ◌≡◌, ◌≤◌, refl, subst, ap, ◌∙◌, [], ◌∷◌, ◌++◌, =ₛ_refl,
  ℤ, map, select, select-append, arith,
}
use any_sync_coordinator.Outcome.{Result, ok}
use any_sync_coordinator.Mongo.{Mongo, Documented}
use any_sync_coordinator.Mongo.Ordered.{IsOrdered, take_short}
use any_sync_coordinator.Keys.{Keys}
use any_sync_coordinator.Inbox.{
  InboxMessage, Messages, AddRequest, fetch_limit, inbox_fetch, inbox_add_message,
  message_from_request,
}
use any_sync_coordinator.Inbox.Delivery.{IsSubscribed, event, stream_listener-delivers}
use any_sync_coordinator.Inbox.Fetching.{sent_to, inbox_add_message-from_request}
use any_sync_coordinator.Inbox.Following.{fetch_limit_pos, receiver_log}
use any_sync_coordinator.Inbox.Listener.{stream_listener, change_of}
use any_sync_coordinator.Paged.{Reads, page}
use any_sync_coordinator.Paged.Following.{Follows, last_cursor, read_rest}
use any_sync_coordinator.Subscribe.{Stream, Streams}
use any_sync_coordinator.Subscribe.Copies.{sent_on}

select-last :
    (q : InboxMessage → Bool) (ms : Messages) (msg : InboxMessage)
    → q msg ≡ true
    → select q (ms ++ msg ∷ []) ≡ select q ms ++ msg ∷ []
select-last q ms msg h = select-append q ms (msg ∷ []) ∙ rw h refl

page-one : (n : ℕ) (msg : InboxMessage) → 1 ≤ n → page n (msg ∷ []) ≡ (msg ∷ [], false)
page-one zero msg h = absurd (omega (arith, h))
page-one (suc n) msg h = ground (arith, take_short (suc n) (msg ∷ []) (omega arith))

module _ {m : Mongo} (law : Documented m) (k : Keys) (configured : ℕ) (ms : Messages)
    (pub_key : Result k.PubKey) (now : ℤ) (r : AddRequest) (event_type : ℕ) (p : String)
    (s : Stream) (sends : String → Stream → Bool) (st : Streams) (to : k.PubKey) where
  -- The messages after the call.
  abbrev added : Messages
  added = (inbox_add_message m k pub_key now r ms).1

  -- The message is signed by its sender and added; the peer is sent one event with its id; and who
  -- has the messages to the receiver that were there before fetches this one next, and no more.
  pub record Arrived : Type 0 where
    pub sender : k.PubKey
    pub known : pub_key ≡ ok sender
    pub signed : k.verify sender r.body r.sender_signature ≡ ok true
    pub message : InboxMessage
    pub is_request : message ≡ message_from_request k sender now r message.id
    pub whole : added ≡ ms ++ message ∷ []
    pub notified :
        sent_on s (stream_listener event_type sends (change_of m message ∷ []) st).sent
        ≡ (s, event event_type (k.account to) p s (m.hex message.id)) ∷ []
    pub fetched :
        Reads
          (inbox_fetch m k
            (ok to)
            configured
            (last_cursor (receiver_log law k to configured) (select (sent_to (k.account to)) ms)))
          added
          (message ∷ [], false)

  request-id :
      (sender : k.PubKey) (i : ℕ)
      → message_from_request k sender now r i
        ≡ message_from_request k sender now r (message_from_request k sender now r i).id
  unfolding message_from_request
  request-id sender i = refl

  request-sent_to :
      (sender : k.PubKey) (i : ℕ)
      → k.account to ≡ r.receiver_identity
      → sent_to (k.account to) (message_from_request k sender now r i) ≡ true
  unfolding message_from_request
  request-sent_to sender i h = rw h (=ₛ_refl r.receiver_identity)

  -- A message that InboxAddMessage accepts, on its way to a peer of its receiver that is subscribed,
  -- on a stream of its own that every event can be sent on, where the ids of the messages grow. The
  -- caller has signed its body, and it is appended as the request and the caller's key make it. The
  -- change that this gives the listener sends the peer one event, with the id of the message. Whoever
  -- has the messages to the receiver that were there before, and fetches with the receiver's key what
  -- follows the last of them, gets this message alone, and that there are no more, or a failure of
  -- the driver.
  pub message-Arrived :
      (u : Unit {0})
      → k.account to ≡ r.receiver_identity
      → ((payload : String) → sends payload s ≡ true)
      → IsSubscribed event_type (k.account to) p s st
      → (inbox_add_message m k pub_key now r ms).0 ≡ ok u
      → IsOrdered (λ x. x.id) added
      → Arrived
  message-Arrived u receiver good sub h ordered =
      let (key, known, signed, whole) = inbox_add_message-from_request law k now r ms pub_key u h in
      let msg = message_from_request k key now r (m.new_object_id (map (λ x. x.id) ms)) in
      let its = request-sent_to key (m.new_object_id (map (λ x. x.id) ms)) receiver in
      let (_, sent, _) =
        stream_listener-delivers event_type (k.account to) p s m sends good (msg ∷ []) st sub in
      let log = receiver_log law k to configured in
      let follows : Follows log added (select (sent_to (k.account to)) ms) = record {
        ready = ordered;
        rest = msg ∷ [];
        whole =
            ap (select (sent_to (k.account to))) whole
            ∙ select-last (sent_to (k.account to)) ms msg its;
      } in
      record {
        sender = key;
        known = known;
        signed = signed;
        message = msg;
        is_request = request-id key _;
        whole = whole;
        notified = sent ∙ rw its refl;
        fetched =
            subst
              (λ x.
                Reads
                  (inbox_fetch m k (ok to) configured
                    (last_cursor log (select (sent_to (k.account to)) ms)))
                  added x)
              (page-one (fetch_limit configured) msg (fetch_limit_pos configured))
              (read_rest log added (select (sent_to (k.account to)) ms) follows);
      }
