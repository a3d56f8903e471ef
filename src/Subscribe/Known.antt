-- ===== src/Subscribe/Known.antt =====
-- The event types that Init knows keep their maps.
use any_sync_coordinator.Prelude.{
  ℕ, String, Bool, true, false, ◌≡◌, refl, ◌∙◌, inl, inr, none, Option-cases, Bool-cases, List, [],
  ◌∷◌, ◌==◌, ◌=ₛ◌, All, arith, if◌then◌else◌,
}
use any_sync_coordinator.Prelude.Assoc.{lookup, put, lookup-put}
use any_sync_coordinator.Subscribe.{
  Stream, Peers, Accounts, Streams, Subscription, NotifyEvent, accounts_of, peers_of, init_streams,
  add_stream, remove_stream, notify_each, notify_all_peers,
}
use any_sync_coordinator.Subscribe.Streams.{stream_at, ==-iff}
use any_sync_coordinator.Subscribe.Histories.{IsKnown}

-- Putting a map of accounts keeps every event type known.
put-IsKnown :
    (e : ℕ) (accounts : Accounts) (st : Streams) (e' : ℕ)
    → IsKnown st e'
    → IsKnown (put ◌==◌ e accounts st) e'
put-IsKnown e accounts st e' (old, h) = elim (Bool-cases (e == e')) [
  | inl p ↦ (accounts, lookup-put ◌==◌ ==-iff e e' accounts st ∙ rw p refl)
  | inr p ↦ (old, lookup-put ◌==◌ ==-iff e e' accounts st ∙ rw p h)
]

pub All-IsKnown :
    (st st' : Streams) (es : List ℕ)
    → ((e : ℕ) → IsKnown st e → IsKnown st' e)
    → All (IsKnown st) es
    → All (IsKnown st') es
All-IsKnown st st' [] keep h = tt
All-IsKnown st st' (e ∷ es) keep h = (keep e h.0, All-IsKnown st st' es keep h.1)

pub remove-IsKnown :
    (e : ℕ) (a p : String) (st : Streams) (e' : ℕ)
    → IsKnown st e'
    → IsKnown (remove_stream e a p st) e'
unfolding remove_stream
remove-IsKnown e a p st e' h = elim (Option-cases (lookup ◌==◌ e st)) [
  | inl q ↦ rw q h
  | inr (accounts, q) ↦ rw q (put-IsKnown e _ st e' h)
]

pub add-IsKnown :
    (n : Subscription) (st : Streams) (e' : ℕ) → IsKnown st e' → IsKnown (add_stream n st).1 e'
unfolding add_stream
add-IsKnown n st e' h = elim (Option-cases (lookup ◌==◌ n.event_type st)) [
  | inl q ↦ rw q h
  | inr (accounts, q) ↦
      elim (Option-cases (lookup ◌=ₛ◌ n.peer_id (peers_of n.account_id accounts))) [
        | inl r ↦ rw (q, r) (put-IsKnown n.event_type _ st e' h)
        | inr (s, r) ↦ rw (q, r) h
      ]
]

each-IsKnown :
    (a : String) (event : NotifyEvent) (sends : Stream → Bool) (ps : Peers) (st : Streams) (e' : ℕ)
    → IsKnown st e'
    → IsKnown (notify_each a event sends ps st).1 e'
unfolding notify_each
each-IsKnown a event sends [] st e' h = h
each-IsKnown a event sends ((p, s) ∷ ps) st e' h =
    each-IsKnown a event sends ps _ e' (after (sends s))
  where
    after : (b : Bool) → IsKnown (if b then st else remove_stream event.event_type a p st) e'
    after true = h
    after false = remove-IsKnown event.event_type a p st e' h

pub init-IsKnown : (es : List ℕ) → All (IsKnown (init_streams es)) es
unfolding init_streams
init-IsKnown [] = tt
init-IsKnown (e ∷ es) = (
  ([], lookup-put ◌==◌ ==-iff e e [] (init_streams es) ∙ ground arith),
  All-IsKnown (init_streams es) (put ◌==◌ e [] (init_streams es)) es
      (put-IsKnown e [] (init_streams es)) (init-IsKnown es),
)

pub init-at : (es : List ℕ) (e : ℕ) (a p : String) → stream_at e a p (init_streams es) ≡ none
unfolding init_streams
init-at [] e a p = refl
init-at (e' ∷ es) e a p =
    ground (arith, lookup-put ◌==◌ ==-iff e' e [] (init_streams es), init-at es e a p)

pub notify-IsKnown :
    (e : ℕ) (a payload : String) (sends : Stream → Bool) (st : Streams) (e' : ℕ)
    → IsKnown st e'
    → IsKnown (notify_all_peers e a payload sends st).1 e'
unfolding notify_all_peers
notify-IsKnown e a payload sends st =
    each-IsKnown a (record { event_type = e; payload = payload }) sends
      (peers_of a (accounts_of e st)) st
