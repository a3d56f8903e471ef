-- ===== src/Inbox/Fetching.antt =====
-- What a fetch returns and what adding a message requires and does.
use any_sync_coordinator.Prelude.{
  ℕ, ◌+◌, String, Bool, true, false, ◌&&◌, ◌≡◌, ◌⊎◌, refl, ap, ◌∙◌, subst, inl, inr, [], ◌∷◌, ◌++◌,
  ℤ, length, take, select, ltb, ◌==◌, ◌=ₛ◌, arith, map,
}
use any_sync_coordinator.Outcome.{driver, Result, ok, err, lift, ◌>>=◌, >>=-reads}
use any_sync_coordinator.Docs.{ObjectId}
use any_sync_coordinator.Mongo.{Mongo, Documented, sort_by}
use any_sync_coordinator.Mongo.Ordered.{
  IsOrdered, IsOrdered-select, select_after, sort_ordered, fetched_more, fetched_has_more,
}
use any_sync_coordinator.Time
use any_sync_coordinator.Keys.{Keys}
use any_sync_coordinator.Inbox.{
  InboxMessage, Messages, AddRequest, fetch_limit, cut_messages, offset_query, inbox_fetch,
  inbox_add_message, insert_message, signature_matches, verify_signature, message_from_request,
}

abbrev pub sent_to : String → InboxMessage → Bool
sent_to receiver msg = msg.packet.receiver_identity =ₛ receiver

-- One page of the messages that follow, and whether there are more.
abbrev pub page : ℕ → Messages → Messages × Bool
page limit rest = (take limit rest, ltb limit (length rest))

cut-page : (n : ℕ) (l : Messages) → cut_messages n (take (n + 1) l) ≡ page n l
unfolding cut_messages
cut-page n l = ground (arith, fetched_more n l, fetched_has_more n l)

module _ {m : Mongo} (law : Documented m) (k : Keys) (key : k.PubKey) (configured : ℕ)
    (ms : Messages) where
  read :
      (offset : String) (q : InboxMessage → Bool) (rest : Messages)
      → offset_query m (k.account key) offset ≡ ok q
      → sort_by (λ x. x.id) (select q ms) ≡ rest
      → (inbox_fetch m k (ok key) configured offset ms
          ≡ (ok (page (fetch_limit configured) rest), ms))
        ⊎ ((n : ℕ) × (inbox_fetch m k (ok key) configured offset ms ≡ (err (driver n), ms)))
  unfolding inbox_fetch ◌>>=◌
  read offset q rest h s =
      elim (law.find_sorted_lem InboxMessage (λ x. x.id) (fetch_limit configured + 1) q ms) [
        | inl p ↦ inl (rw (h, p, s) (ap (λ x. (ok x, ms)) (cut-page (fetch_limit configured) rest)))
        | inr (n, p) ↦ inr (n, rw (h, p) refl)
      ]

  query_start : offset_query m (k.account key) "" ≡ ok (sent_to (k.account key))
  unfolding offset_query
  query_start = refl

  pub inbox_fetch-start :
      IsOrdered (λ x. x.id) ms
      → (inbox_fetch m k (ok key) configured "" ms
          ≡ (ok (page (fetch_limit configured) (select (sent_to (k.account key)) ms)), ms))
        ⊎ ((n : ℕ) × (inbox_fetch m k (ok key) configured "" ms ≡ (err (driver n), ms)))
  inbox_fetch-start ordered = read "" (sent_to (k.account key)) _ query_start (
      sort_ordered (λ x. x.id) _
        (IsOrdered-select (λ x. x.id) (sent_to (k.account key)) ms ordered))

  query_next :
      (msg : InboxMessage)
      → offset_query m (k.account key) (m.hex msg.id)
        ≡ ok (λ x. sent_to (k.account key) x && ltb msg.id x.id)
  unfolding offset_query
  query_next msg = rw (law.hex_nonempty msg.id, law.object_id_from_hex_lem msg.id) refl

  -- Where the ids of the messages grow, a fetch with the id of a message returns the messages to
  -- the caller's account that follow it, as many as the limit allows, and whether there are more.
  -- Nothing else can happen but a failure of the driver.
  pub inbox_fetch-next :
      IsOrdered (λ x. x.id) ms
      → (xs : Messages) (msg : InboxMessage) (ys : Messages) → ms ≡ xs ++ msg ∷ ys
      → (inbox_fetch m k (ok key) configured (m.hex msg.id) ms
          ≡ (ok (page (fetch_limit configured) (select (sent_to (k.account key)) ys)), ms))
        ⊎ ((n : ℕ) × (inbox_fetch m k (ok key) configured (m.hex msg.id) ms ≡ (err (driver n), ms)))
  inbox_fetch-next ordered xs msg ys e = read (m.hex msg.id) later _ (query_next msg) (
      ap (sort_by (λ x. x.id)) found
      ∙ sort_ordered (λ x. x.id) _
          (subst (IsOrdered (λ x. x.id)) found (IsOrdered-select (λ x. x.id) later ms ordered)))
    where
      later : InboxMessage → Bool
      later x = sent_to (k.account key) x && ltb msg.id x.id

      found : select later ms ≡ select (sent_to (k.account key)) ys
      found =
          ap (select later) e
          ∙ select_after (λ x. x.id) (sent_to (k.account key)) xs msg ys
              (subst (IsOrdered (λ x. x.id)) e ordered)

module _ (k : Keys) where
  matches : (x : Result Bool) (u : Unit {0}) → signature_matches k x ≡ ok u → x ≡ ok true
  matches (ok true) u h = refl
  matches (ok false) u h = absurd (cc h)
  matches (err e) u h = absurd (cc h)

  verified :
      (key : k.PubKey) (msg : InboxMessage) (u : Unit {0})
      → verify_signature k (ok key) msg ≡ ok u
      → k.verify key msg.packet.payload.body msg.packet.sender_signature ≡ ok true
  unfolding verify_signature
  verified key msg u h = matches _ u h

module _ {m : Mongo} (law : Documented m) (k : Keys) (now : ℤ) (r : AddRequest)
    (ms : Messages) where
  insert_message-ok :
      (msg : ObjectId → InboxMessage) (u : Unit {0})
      → (insert_message m msg ms).0 ≡ ok u
      → (insert_message m msg ms).1 ≡ ms ++ msg (m.new_object_id (map (λ x. x.id) ms)) ∷ []
  unfolding insert_message
  insert_message-ok msg u h =
      let id = m.new_object_id (map (λ x. x.id) ms) in
      ground (arith, law.insert_one_lem InboxMessage (λ x. x.id == id) (msg id) ms)

  abbrev pub from_request : k.PubKey → InboxMessage
  from_request key = message_from_request k key now r (m.new_object_id (map (λ x. x.id) ms))

  pub inbox_add_message-from_request :
      (pub_key : Result k.PubKey) (u : Unit {0})
      → (inbox_add_message m k pub_key now r ms).0 ≡ ok u
      → (key : k.PubKey) × (pub_key ≡ ok key)
        × (k.verify key r.body r.sender_signature ≡ ok true)
        × ((inbox_add_message m k pub_key now r ms).1 ≡ ms ++ from_request key ∷ [])
  unfolding inbox_add_message message_from_request lift
  inbox_add_message-from_request (err e) u h = absurd (cc h)
  inbox_add_message-from_request (ok key) u h =
      let (v, p, step, h') = >>=-reads _ _ ms u refl h in
      let good = verified k key (message_from_request k key now r 0) v p in
      (key, refl, good, ap (λ x. x.1) step ∙ insert_message-ok _ u h')

  -- The message of an account to the receiver of the request.
  abbrev pub sent_by : String → InboxMessage
  sent_by account = record {
    id = m.new_object_id (map (λ x. x.id) ms);
    packet_type = r.packet_type;
    packet = record {
      key_type = r.key_type;
      sender_identity = account;
      receiver_identity = r.receiver_identity;
      sender_signature = r.sender_signature;
      payload = record { payload_type = r.payload_type; timestamp = Time.unix now; body = r.body };
    };
  }

  -- A message that is added: the request has a key, which has signed the body of the message. The
  -- message is appended under a new id, from the account of that key to the receiver of the request,
  -- with the types, the signature and the body of the request and the time of the call in seconds,
  -- and every other message is kept.
  pub inbox_add_message-ok :
      (pub_key : Result k.PubKey) (u : Unit {0})
      → (inbox_add_message m k pub_key now r ms).0 ≡ ok u
      → (key : k.PubKey) × (pub_key ≡ ok key)
        × (k.verify key r.body r.sender_signature ≡ ok true)
        × ((inbox_add_message m k pub_key now r ms).1 ≡ ms ++ sent_by (k.account key) ∷ [])
  unfolding message_from_request
  inbox_add_message-ok pub_key u h = inbox_add_message-from_request pub_key u h
