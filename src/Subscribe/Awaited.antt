-- ===== src/Subscribe/Awaited.antt =====
-- For every stream a goroutine waits.
use any_sync_coordinator.Prelude.{
  ℕ, String, Bool, true, false, ◌&&◌, ◌≡◌, refl, sym, subst, ◌∙◌, inl, inr, none, some,
  Option-cases, Bool-cases, List, [], ◌∷◌, ◌++◌, ◌==◌, ◌=ₛ◌, arith,
}
use any_sync_coordinator.Prelude.Assoc.{lookup}
use any_sync_coordinator.Outcome.{nil_dereference, Result, ok, err}
use any_sync_coordinator.Subscribe.{
  Stream, Streams, Subscription, add_stream, wait_close_stream, notify_all_peers,
}
use any_sync_coordinator.Subscribe.Notify.{is_lost, notify_all_peers-at}
use any_sync_coordinator.Subscribe.Streams.{
  stream_at, is_same, Added, add_stream-Added, wait_close_stream-at,
}
use any_sync_coordinator.Subscribe.WellFormed.{IsWellFormed, peers-IsMap}
use any_sync_coordinator.Subscribe.Histories.{System, registered, is_awaited}

-- A goroutine other than that of the removed stream goes on waiting.
still_awaited :
    (e : ℕ) (a p : String) (x : Stream) (xs : List Subscription) (n : Subscription)
    (ys : List Subscription)
    → is_same n.event_type n.account_id n.peer_id e a p ≡ false
    → is_awaited e a p x (xs ++ n ∷ ys) ≡ true
    → is_awaited e a p x (xs ++ ys) ≡ true
still_awaited e a p x [] n ys other h = ground arith
still_awaited e a p x (y ∷ xs) n ys other h = ground (arith, still_awaited e a p x xs n ys other)

registered-awaited :
    (n : Subscription) (st : Streams) (waiting : List Subscription) (e : ℕ) (a p : String)
    (r : Result (Unit {0}) × Streams)
    → Added n e a p st r
    → ((x : Stream) → stream_at e a p st ≡ some x → is_awaited e a p x waiting ≡ true)
    → (x : Stream) → stream_at e a p (registered n waiting r).streams ≡ some x
    → is_awaited e a p x (registered n waiting r).waiting ≡ true
registered-awaited n st waiting e a p (ok u, st') (inl (s, _, q, _)) h x g = absurd (cc q)
registered-awaited n st waiting e a p (ok u, st') (inr (_, _, at)) h x g =
    elim (Bool-cases (is_same n.event_type n.account_id n.peer_id e a p)) [
      | inl q ↦ let same : n.stream ≡ x = cc (rw q at (sym at ∙ g)) in ground (arith, q, same)
      | inr q ↦ rw q (h x (rw q at (sym at ∙ g)))
    ]
registered-awaited n st waiting e a p (err _, st') (inl (s, _, _, same)) h x g =
    h x (subst (λ t. stream_at e a p t ≡ some x) same g)
registered-awaited n st waiting e a p (err _, st') (inr (_, q, _)) h x g = absurd (cc q)

pub registered-streams :
    (n : Subscription) (waiting : List Subscription) (r : Result (Unit {0}) × Streams)
    → (registered n waiting r).streams ≡ r.1
registered-streams n waiting (ok u, st) = refl
registered-streams n waiting (err x, st) = refl

unknown_event :
    (n : Subscription) (st : Streams)
    → lookup ◌==◌ n.event_type st ≡ none
    → add_stream n st ≡ (err nil_dereference, st)
unfolding add_stream
unknown_event n st h = rw h refl

pub subscribed-awaited :
    (n : Subscription) (st : Streams) (waiting : List Subscription) (e : ℕ) (a p : String)
    → ((x : Stream) → stream_at e a p st ≡ some x → is_awaited e a p x waiting ≡ true)
    → (x : Stream) → stream_at e a p (registered n waiting (add_stream n st)).streams ≡ some x
    → is_awaited e a p x (registered n waiting (add_stream n st)).waiting ≡ true
subscribed-awaited n st waiting e a p h x g = elim (Option-cases (lookup ◌==◌ n.event_type st)) [
  | inl q ↦ rw (unknown_event n st q) (
      h x (
        subst (λ r. stream_at e a p (registered n waiting r).streams ≡ some x)
          (unknown_event n st q) g))
  | inr (accounts, q) ↦
      registered-awaited n st waiting e a p (add_stream n st)
        (add_stream-Added n st accounts q e a p) h x g
]

pub ended-awaited :
    (s : System) (xs : List Subscription) (n : Subscription) (ys : List Subscription) (e : ℕ)
    (a p : String)
    → s.waiting ≡ xs ++ n ∷ ys
    → ((x : Stream) → stream_at e a p s.streams ≡ some x → is_awaited e a p x s.waiting ≡ true)
    → (x : Stream) → stream_at e a p (wait_close_stream n s.streams) ≡ some x
    → is_awaited e a p x (xs ++ ys) ≡ true
ended-awaited s xs n ys e a p split h x g =
    let at = wait_close_stream-at n s.streams e a p in
    elim (Bool-cases (is_same n.event_type n.account_id n.peer_id e a p)) [
      | inl q ↦ absurd (cc (rw q at (sym at ∙ g)))
      | inr q ↦
          still_awaited e a p x xs n ys q
            (subst (λ w. is_awaited e a p x w ≡ true) split (h x (rw q at (sym at ∙ g))))
    ]

pub notified-at :
    (e : ℕ) (a payload : String) (sends : Stream → Bool) (st : Streams)
    → IsWellFormed st
    → (e' : ℕ) (a' p' : String) (x : Stream)
    → stream_at e' a' p' (notify_all_peers e a payload sends st).1 ≡ some x
    → stream_at e' a' p' st ≡ some x
notified-at e a payload sends st h e' a' p' x g =
    let lost = e == e' && (a =ₛ a' && is_lost sends (stream_at e a p' st)) in
    let at = notify_all_peers-at e a payload sends st (peers-IsMap e a st h) e' a' p' in
    elim (Bool-cases lost) [
      | inl q ↦ absurd (cc (rw q at (sym at ∙ g)))
      | inr q ↦ rw q at (sym at ∙ g)
    ]
