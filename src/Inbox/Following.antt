-- ===== src/Inbox/Following.antt =====
-- A receiver that reads its messages in inbox/inbox.go page by page.
use any_sync_coordinator.Prelude.{
  ℕ, ◌+◌, ◌*◌, ◌≤◌, String, ◌≡◌, ◌≢◌, Bool, ap, inl, inr, subst, ◌∷◌, ◌++◌, length, select, arith,
}
use any_sync_coordinator.Outcome.{driver, ok, err}
use any_sync_coordinator.Mongo.{Mongo, Documented}
use any_sync_coordinator.Mongo.Ordered.{IsOrdered}
use any_sync_coordinator.Keys.{Keys}
use any_sync_coordinator.Inbox.{InboxMessage, Messages, fetch_limit, inbox_fetch}
use any_sync_coordinator.Inbox.Fetching.{sent_to, inbox_fetch-start, inbox_fetch-next}
use any_sync_coordinator.Paged.{PagedLog, page, Reads, Reads-ReadsSome}
use any_sync_coordinator.Paged.Following.{
  Reach, Reach-Follows, Reach-IsFollowed, Reach-catches_up, last_cursor, polls,
}
use any_sync_coordinator.Paged.Splitting.{select-split}

pub fetch_limit_pos : (n : ℕ) → 1 ≤ fetch_limit n
unfolding fetch_limit
fetch_limit_pos n = ground arith

module _ {m : Mongo} (law : Documented m) (k : Keys) (key : k.PubKey) (configured : ℕ) where
  pub fetch_next :
      (ms : Messages)
      → IsOrdered (λ x. x.id) ms
      → (xs : Messages) (msg : InboxMessage) (ys : Messages)
      → select (sent_to (k.account key)) ms ≡ xs ++ msg ∷ ys
      → Reads
          (inbox_fetch m k (ok key) configured (m.hex msg.id))
          ms
          (page (fetch_limit configured) ys)
  fetch_next ms ordered xs msg ys h =
      let s = select-split (sent_to (k.account key)) ms xs msg ys h in
      subst
        (λ l.
          Reads (inbox_fetch m k (ok key) configured (m.hex msg.id)) ms
            (page (fetch_limit configured) l))
        s.same_after (inbox_fetch-next law k key configured ms ordered s.before msg s.after s.whole)

  -- A fetch that does not fail in the driver is answered.
  answered :
      (ms : Messages) (offset : String) (p : Messages × Bool)
      → ((n : ℕ) → (inbox_fetch m k (ok key) configured offset ms).0 ≢ err (driver n))
      → Reads (inbox_fetch m k (ok key) configured offset) ms p
      → inbox_fetch m k (ok key) configured offset ms ≡ (ok p, ms)
  answered ms offset p steady (inl h) = h
  answered ms offset p steady (inr (n, h)) = absurd (steady n (ap (λ r. r.0) h))

  -- The messages to the account of a key.
  abbrev pub receiver_log : PagedLog Messages InboxMessage
  receiver_log = record {
    entries = λ ms. select (sent_to (k.account key)) ms;
    cursor = λ msg. m.hex msg.id;
    IsReady = λ ms. IsOrdered (λ x. x.id) ms;
    limit = fetch_limit configured;
    limit_pos = fetch_limit_pos configured;
    get_after = λ offset. inbox_fetch m k (ok key) configured offset;
    Answers = λ offset ms rest.
        Reads (inbox_fetch m k (ok key) configured offset) ms (page (fetch_limit configured) rest);
    reads_some = λ offset ms rest.
        Reads-ReadsSome (inbox_fetch m k (ok key) configured offset) ms (fetch_limit configured)
          rest;
    start = λ ms ordered. inbox_fetch-start law k key configured ms ordered;
    next = fetch_next;
  }

  -- A receiver that starts with nothing and fetches again and again what follows the last message
  -- that it has, while others add messages and some of its calls fail: at any time, where the ids of
  -- the messages grow, it has the first messages to its account, each once and in their order. Its
  -- next call returns those that follow, as many as the limit allows, and whether there are more, or
  -- a failure of the driver.
  pub receiver_follows :
      {ms0 ms : Messages} {seen : Messages}
      → IsOrdered (λ x. x.id) ms0
      → Reach receiver_log ms0 ms seen
      → (rest : Messages) × (select (sent_to (k.account key)) ms ≡ seen ++ rest)
        × Reads
            (inbox_fetch m k (ok key) configured (last_cursor receiver_log seen))
            ms
            (page (fetch_limit configured) rest)
  receiver_follows ordered r = Reach-IsFollowed receiver_log ordered r

  -- Such a receiver at any time of such a history: if from then on nothing is added and no call
  -- fails, as many calls as the messages that it lacks have pages give it all of them.
  pub receiver_catches_up :
      {ms0 ms : Messages} {seen : Messages}
      → IsOrdered (λ x. x.id) ms0
      → Reach receiver_log ms0 ms seen
      → ((i : String) (n : ℕ) → (inbox_fetch m k (ok key) configured i ms).0 ≢ err (driver n))
      → (calls : ℕ)
      → length (select (sent_to (k.account key)) ms) ≤ length seen + calls * fetch_limit configured
      → polls receiver_log calls ms seen ≡ select (sent_to (k.account key)) ms
  receiver_catches_up {ms0} {ms} {seen} ordered r steady calls h =
      let ready = (Reach-Follows receiver_log ordered r).ready in
      Reach-catches_up receiver_log ordered r
        (record {
          start = answered ms _ _ (steady "") (inbox_fetch-start law k key configured ms ready);
          next = λ xs msg ys e.
              answered ms _ _ (steady (m.hex msg.id)) (fetch_next ms ready xs msg ys e);
        })
        calls h
