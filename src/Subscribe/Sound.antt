-- ===== src/Subscribe/Sound.antt =====
-- What every history of subscriptions keeps.
use any_sync_coordinator.Prelude.{
  ℕ, String, Bool, true, false, ◌||◌, ◌≡◌, ◌⊎◌, refl, sym, subst, inl, inr, some, Bool-cases, List,
  [], ◌∷◌, ◌==◌, ◌=ₛ◌, =ₛ_refl, ◌≢◌, All,
}
use any_sync_coordinator.Prelude.Assoc.{lookup}
use any_sync_coordinator.Outcome.{nil_dereference, err}
use any_sync_coordinator.Subscribe.{
  Stream, Peers, Accounts, Streams, Subscription, accounts_of, peers_of, add_stream,
  wait_close_stream, notify_all_peers,
}
use any_sync_coordinator.Subscribe.Streams.{add_stream-Added, ==-iff}
use any_sync_coordinator.Subscribe.WellFormed.{
  IsWellFormed, IsAccounts, accounts_of-IsAccounts, remove_stream-IsWellFormed,
  add_stream-IsWellFormed, notify_all_peers-IsWellFormed, init_streams-IsWellFormed,
}
use any_sync_coordinator.Subscribe.Histories.{
  System, Step, subscribed, ended, notified, Reach, here, next, initial, IsKnown, is_awaited,
  IsSound,
}
use any_sync_coordinator.Subscribe.Known.{
  All-IsKnown, remove-IsKnown, add-IsKnown, notify-IsKnown, init-IsKnown, init-at,
}
use any_sync_coordinator.Subscribe.Awaited.{
  registered-streams, subscribed-awaited, ended-awaited, notified-at,
}

pub initial-IsSound : (es : List ℕ) → IsSound es (initial es)
initial-IsSound es = record {
  well_formed = init_streams-IsWellFormed es;
  known = init-IsKnown es;
  awaited = λ e a p x h. absurd (cc (h, init-at es e a p));
}

pub Step-IsSound : {es : List ℕ} {s t : System} → Step s t → IsSound es s → IsSound es t
unfolding wait_close_stream
Step-IsSound {es} {s} (subscribed n) h =
    let same = registered-streams n s.waiting (add_stream n s.streams) in
    record {
      well_formed =
          subst IsWellFormed (sym same) (add_stream-IsWellFormed n s.streams h.well_formed);
      known =
          subst (λ st. All (IsKnown st) es) (sym same)
            (All-IsKnown s.streams (add_stream n s.streams).1 es (add-IsKnown n s.streams) h.known);
      awaited = λ e a p. subscribed-awaited n s.streams s.waiting e a p (h.awaited e a p);
    }
Step-IsSound {es} {s} (ended xs n ys split) h = record {
  well_formed =
      remove_stream-IsWellFormed n.event_type n.account_id n.peer_id s.streams h.well_formed;
  known =
      All-IsKnown s.streams (wait_close_stream n s.streams) es
        (remove-IsKnown n.event_type n.account_id n.peer_id s.streams) h.known;
  awaited = λ e a p. ended-awaited s xs n ys e a p split (h.awaited e a p);
}
Step-IsSound {es} {s} (notified e a payload sends) h = record {
  well_formed = notify_all_peers-IsWellFormed e a payload sends s.streams h.well_formed;
  known =
      All-IsKnown s.streams (notify_all_peers e a payload sends s.streams).1 es
        (notify-IsKnown e a payload sends s.streams) h.known;
  awaited = λ e' a' p' x g.
      h.awaited e' a' p' x (notified-at e a payload sends s.streams h.well_formed e' a' p' x g);
}

pub Reach-IsSound : {es : List ℕ} {s t : System} → IsSound es s → Reach s t → IsSound es t
Reach-IsSound h here = h
Reach-IsSound h (next r st) = Step-IsSound st (Reach-IsSound h r)

abbrev pub is_one_of : ℕ → List ℕ → Bool
is_one_of e [] = false
is_one_of e (e' ∷ es) = e' == e || is_one_of e es

one-IsKnown :
    (e : ℕ) (es : List ℕ) (st : Streams)
    → is_one_of e es ≡ true
    → All (IsKnown st) es
    → IsKnown st e
one-IsKnown e [] st h k = absurd (cc h)
one-IsKnown e (e' ∷ es) st h k = elim (Bool-cases (e' == e)) [
  | inl p ↦ subst (IsKnown st) ((==-iff e' e).0 p) k.0
  | inr p ↦ one-IsKnown e es st (rw p at h) k.1
]

no_panic :
    (n : Subscription) (st : Streams)
    → IsKnown st n.event_type
    → (add_stream n st).0 ≢ err nil_dereference
no_panic n st (accounts, q) h =
    elim (add_stream-Added n st accounts q n.event_type n.account_id n.peer_id) [
      | inl (s, _, r, _) ↦ absurd (cc (r, h))
      | inr (_, r, _) ↦ absurd (cc (r, h))
    ]

-- After any history of subscriptions, of streams that end and of notifications, on the maps that Init
-- makes for some event types: the maps are well formed, each account has peers, each of the event
-- types has its map, and for every stream a goroutine waits for the end of that very stream. A
-- subscription does not panic, or its event type is not one of them.
pub history-IsSound :
    {s : System} (es : List ℕ)
    → Reach (initial es) s
    → IsSound es s
      × ((n : Subscription)
          → (is_one_of n.event_type es ≡ false)
            ⊎ ((add_stream n s.streams).0 ≢ err nil_dereference))
history-IsSound {s} es r =
    let h = Reach-IsSound (initial-IsSound es) r in
    (
      h,
      λ n. elim (Bool-cases (is_one_of n.event_type es)) [
        | inl one ↦ inr (no_panic n s.streams (one-IsKnown n.event_type es s.streams one h.known))
        | inr other ↦ inl other
      ],
    )

first_stream :
    (a p : String) (x : Stream) (ps : Peers) (accounts : Accounts)
    → lookup ◌=ₛ◌ p (peers_of a ((a, (p, x) ∷ ps) ∷ accounts)) ≡ some x
first_stream a p x ps accounts = rw (=ₛ_refl a, =ₛ_refl p) refl

no_streams :
    (accounts : Accounts)
    → IsAccounts accounts
    → ((a p : String) (x : Stream) → lookup ◌=ₛ◌ p (peers_of a accounts) ≢ some x)
    → accounts ≡ []
no_streams [] h free = refl
no_streams ((a, []) ∷ accounts) h free = absurd h.1.0
no_streams ((a, (p, x) ∷ ps) ∷ accounts) h free =
    absurd (free a p x (first_stream a p x ps accounts))

-- After any history, on the maps that Init makes: once the goroutine of every subscription has run to
-- its end, no account and no stream is left in the maps.
pub all_ended-empty :
    {s : System} (es : List ℕ)
    → Reach (initial es) s
    → s.waiting ≡ []
    → (e : ℕ) → accounts_of e s.streams ≡ []
all_ended-empty {s} es r done e =
    let h = Reach-IsSound (initial-IsSound es) r in
    no_streams (accounts_of e s.streams) (accounts_of-IsAccounts e s.streams h.well_formed)
      (λ a p x g.
        let w = subst (λ l. is_awaited e a p x l ≡ true) done (h.awaited e a p x g) in cc w)
