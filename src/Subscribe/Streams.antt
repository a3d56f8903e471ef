-- ===== src/Subscribe/Streams.antt =====
-- Which stream a peer has after each operation.
use any_sync_coordinator.Prelude.{
  ℕ, String, Bool, true, ◌&&◌, ◌≡◌, ◌↔◌, ◌⊎◌, inl, inr, refl, sym, subst, ◌∙◌, Option, none, some,
  Option-cases, [], ◌∷◌, ◌==◌, ◌=ₛ◌, =ₛ_iff, arith, if◌then◌else◌,
}
use any_sync_coordinator.Prelude.Assoc.{lookup, remove, put, lookup-remove, lookup-put}
use any_sync_coordinator.Outcome.{subscribe_peer_already_subscribed, Result, ok, err}
use any_sync_coordinator.Subscribe.{
  Stream, Streams, Accounts, Peers, Subscription, accounts_of, peers_of, without_peer, add_stream,
  remove_stream, wait_close_stream,
}

-- The stream of a peer.
abbrev pub stream_at : ℕ → String → String → Streams → Option Stream
stream_at e a p streams = lookup ◌=ₛ◌ p (peers_of a (accounts_of e streams))

pub ==-iff : (a b : ℕ) → ((a == b) ≡ true) ↔ (a ≡ b)
==-iff a b = (λ h. ground arith, λ h. ground arith)

-- The same event type, account and peer.
abbrev pub is_same : ℕ → String → String → ℕ → String → String → Bool
is_same e a p e' a' p' = e == e' && (a =ₛ a' && p =ₛ p')

peers_of-without_peer :
    (a a' : String) (ps : Peers) (accounts : Accounts)
    → peers_of a' (without_peer a ps accounts) ≡ (if a =ₛ a' then ps else peers_of a' accounts)
peers_of-without_peer a a' [] accounts = ground (arith, lookup-remove ◌=ₛ◌ =ₛ_iff a a' accounts)
peers_of-without_peer a a' (x ∷ ps) accounts =
    ground (arith, lookup-put ◌=ₛ◌ =ₛ_iff a a' (x ∷ ps) accounts)

without-at :
    (a p a' p' : String) (accounts : Accounts)
    → lookup ◌=ₛ◌ p' (peers_of a' (without_peer a (remove ◌=ₛ◌ p (peers_of a accounts)) accounts))
      ≡ (if a =ₛ a' && p =ₛ p' then none else lookup ◌=ₛ◌ p' (peers_of a' accounts))
without-at a p a' p' accounts =
    rw (peers_of-without_peer a a' (remove ◌=ₛ◌ p (peers_of a accounts)) accounts)
      (ground (arith, lookup-remove ◌=ₛ◌ =ₛ_iff p p' (peers_of a accounts), =ₛ_iff a a'))

pub remove_stream-at :
    (e : ℕ) (a p : String) (e' : ℕ) (a' p' : String) (st : Streams)
    → stream_at e' a' p' (remove_stream e a p st)
      ≡ (if is_same e a p e' a' p' then none else stream_at e' a' p' st)
unfolding remove_stream
remove_stream-at e a p e' a' p' st = elim (Option-cases (lookup ◌==◌ e st)) [
  | inl h ↦ ground (arith, h, ==-iff e e')
  | inr (accounts, h) ↦ ground (
    arith,
    h,
    ==-iff e e',
    lookup-put ◌==◌ ==-iff e e' (without_peer a (remove ◌=ₛ◌ p (peers_of a accounts)) accounts) st,
    without-at a p a' p' accounts,
  )
]

-- What became of a subscription, seen at any peer.
abbrev pub Added :
    Subscription → ℕ → String → String → Streams → Result (Unit {0}) × Streams → Type 0
Added n e' a' p' st (r, st') =
    ((s : Stream) × (stream_at n.event_type n.account_id n.peer_id st ≡ some s)
      × (r ≡ err subscribe_peer_already_subscribed)
      × (st' ≡ st))
    ⊎ ((stream_at n.event_type n.account_id n.peer_id st ≡ none)
        × (r ≡ ok tt)
        × (stream_at e' a' p' st' ≡ (
            if is_same n.event_type n.account_id n.peer_id e' a' p'
            then some n.stream
            else stream_at e' a' p' st)))

module _ (n : Subscription) (st : Streams) (accounts : Accounts)
    (known : lookup ◌==◌ n.event_type st ≡ some accounts) where
  at_known :
      stream_at n.event_type n.account_id n.peer_id st
      ≡ lookup ◌=ₛ◌ n.peer_id (peers_of n.account_id accounts)
  at_known = rw known refl

  taken :
      (s : Stream)
      → stream_at n.event_type n.account_id n.peer_id st ≡ some s
      → add_stream n st ≡ (err subscribe_peer_already_subscribed, st)
  unfolding add_stream
  taken s h = rw (known, sym at_known ∙ h) refl

  added : Streams
  added =
      put ◌==◌ n.event_type
        (put ◌=ₛ◌ n.account_id (put ◌=ₛ◌ n.peer_id n.stream (peers_of n.account_id accounts))
          accounts)
        st

  free : stream_at n.event_type n.account_id n.peer_id st ≡ none → add_stream n st ≡ (ok tt, added)
  unfolding add_stream added
  free h = rw (known, sym at_known ∙ h) refl

  added-at :
      (e' : ℕ) (a' p' : String)
      → stream_at e' a' p' added ≡ (
          if is_same n.event_type n.account_id n.peer_id e' a' p'
          then some n.stream
          else stream_at e' a' p' st)
  unfolding added
  added-at e' a' p' = ground (
    arith,
    known,
    ==-iff n.event_type e',
    =ₛ_iff n.account_id a',
    lookup-put ◌==◌ ==-iff n.event_type e'
        (put ◌=ₛ◌ n.account_id (put ◌=ₛ◌ n.peer_id n.stream (peers_of n.account_id accounts))
          accounts)
        st,
    lookup-put ◌=ₛ◌ =ₛ_iff n.account_id a'
        (put ◌=ₛ◌ n.peer_id n.stream (peers_of n.account_id accounts)) accounts,
    lookup-put ◌=ₛ◌ =ₛ_iff n.peer_id p' n.stream (peers_of n.account_id accounts),
  )

  -- AddStream for a known event type: a peer that has a stream already is refused, and nothing is
  -- changed; otherwise the peer has the stream afterwards, and every other peer, event type and
  -- account has the stream that it had.
  pub add_stream-Added : (e' : ℕ) (a' p' : String) → Added n e' a' p' st (add_stream n st)
  add_stream-Added e' a' p' =
      elim (Option-cases (stream_at n.event_type n.account_id n.peer_id st)) [
        | inl h ↦ subst (Added n e' a' p' st) (sym (free h)) (inr (h, refl, added-at e' a' p'))
        | inr (s, h) ↦ subst (Added n e' a' p' st) (sym (taken s h)) (inl (s, h, refl, refl))
      ]

-- When the stream of a subscription ends, the peer has no stream afterwards, whichever stream it had
-- before, and every other peer, event type and account has the stream that it had.
pub wait_close_stream-at :
    (n : Subscription) (st : Streams) (e' : ℕ) (a' p' : String)
    → stream_at e' a' p' (wait_close_stream n st) ≡ (
        if is_same n.event_type n.account_id n.peer_id e' a' p'
        then none
        else stream_at e' a' p' st)
unfolding wait_close_stream
wait_close_stream-at n st e' a' p' =
    remove_stream-at n.event_type n.account_id n.peer_id e' a' p' st
