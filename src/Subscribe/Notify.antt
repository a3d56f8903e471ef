-- ===== src/Subscribe/Notify.antt =====
-- Which streams are left after a notification.
use any_sync_coordinator.Prelude.{
  ℕ, String, Bool, true, false, not, ◌&&◌, ◌||◌, ◌≡◌, inl, inr, refl, ap, ◌∙◌, Option, none, some,
  Bool-cases, [], ◌∷◌, ◌==◌, ◌=ₛ◌, =ₛ_iff, All, arith, map, if◌then◌else◌,
}
use any_sync_coordinator.Prelude.Assoc.{lookup, IsMap}
use any_sync_coordinator.Subscribe.{
  Stream, Streams, Peers, NotifyEvent, accounts_of, peers_of, remove_stream, notify_each,
  notify_all_peers,
}
use any_sync_coordinator.Subscribe.Streams.{stream_at, remove_stream-at}

-- The peer has a stream that the event cannot be sent to.
abbrev pub is_lost : (Stream → Bool) → Option Stream → Bool
is_lost sends none = false
is_lost sends (some s) = not (sends s)

abbrev pub fails : (Stream → Bool) → String → Peers → Bool
fails sends p' [] = false
fails sends p' ((p, s) ∷ ps) = (p =ₛ p' && not (sends s)) || fails sends p' ps

absent-fails :
    (sends : Stream → Bool) (p' p : String) (ps : Peers)
    → (p =ₛ p') ≡ true
    → All (λ x. (x.0 =ₛ p) ≡ false) ps
    → fails sends p' ps ≡ false
absent-fails sends p' p [] e h = refl
absent-fails sends p' p ((x, s) ∷ ps) e h =
    ground (arith, absent-fails sends p' p ps e h.1, =ₛ_iff p p', =ₛ_iff x p, =ₛ_iff x p', h.0)

fails-lost :
    (sends : Stream → Bool) (p' : String) (ps : Peers)
    → IsMap ◌=ₛ◌ ps
    → fails sends p' ps ≡ is_lost sends (lookup ◌=ₛ◌ p' ps)
fails-lost sends p' [] h = refl
fails-lost sends p' ((p, s) ∷ ps) h = elim (Bool-cases (p =ₛ p')) [
  | inl e ↦ ground (arith, e, absent-fails sends p' p ps e h.0)
  | inr e ↦ ground (arith, e, fails-lost sends p' ps h.1)
]

either :
    (b c d f : Bool) (o : Option Stream)
    → (if b && (c && f) then none else if b && (c && d) then none else o)
      ≡ (if b && (c && ((d && true) || f)) then none else o)
either false c d f o = refl
either true false d f o = refl
either true true false f o = refl
either true true true false o = refl
either true true true true o = refl

one_peer :
    (e : ℕ) (a : String) (sends : Stream → Bool) (p : String) (s : Stream) (ps : Peers)
    (st : Streams) (e' : ℕ) (a' p' : String)
    → (if e == e' && (a =ₛ a' && fails sends p' ps)
        then none
        else stream_at e' a' p' (if sends s then st else remove_stream e a p st))
      ≡ (if e == e' && (a =ₛ a' && fails sends p' ((p, s) ∷ ps))
          then none
          else stream_at e' a' p' st)
one_peer e a sends p s ps st e' a' p' = elim (Bool-cases (sends s)) [
  | inl y ↦ rw y (ground arith)
  | inr n ↦
      rw (n, remove_stream-at e a p e' a' p' st)
        (either (e == e') (a =ₛ a') (p =ₛ p') (fails sends p' ps) (stream_at e' a' p' st))
]

pub notify_each-at :
    (a : String) (event : NotifyEvent) (sends : Stream → Bool) (ps : Peers) (st : Streams) (e' : ℕ)
    (a' p' : String)
    → stream_at e' a' p' (notify_each a event sends ps st).1 ≡ (
        if event.event_type == e' && (a =ₛ a' && fails sends p' ps)
        then none
        else stream_at e' a' p' st)
unfolding notify_each
notify_each-at a event sends [] st e' a' p' = ground arith
notify_each-at a event sends ((p, s) ∷ ps) st e' a' p' =
    notify_each-at a event sends ps (if sends s then st else remove_stream event.event_type a p st)
      e' a' p'
    ∙ one_peer event.event_type a sends p s ps st e' a' p'

pub notify_each-sent :
    (a : String) (event : NotifyEvent) (sends : Stream → Bool) (ps : Peers) (st : Streams)
    → (notify_each a event sends ps st).0 ≡ map (λ x. (x.1, event)) ps
unfolding notify_each
notify_each-sent a event sends [] st = refl
notify_each-sent a event sends ((p, s) ∷ ps) st =
    ap (λ l. (s, event) ∷ l)
      (notify_each-sent a event sends ps
        (if sends s then st else remove_stream event.event_type a p st))

-- The event is sent once on each stream of the account.
pub notify_all_peers-sent :
    (e : ℕ) (a payload : String) (sends : Stream → Bool) (st : Streams)
    → (notify_all_peers e a payload sends st).0
      ≡ map
          (λ x. (x.1, record { event_type = e; payload = payload }))
          (peers_of a (accounts_of e st))
unfolding notify_all_peers
notify_all_peers-sent e a payload sends st =
    notify_each-sent a (record { event_type = e; payload = payload }) sends
      (peers_of a (accounts_of e st)) st

-- After a notification, the peers of the account whose stream the event could not be sent to have
-- no stream, and every other peer, event type and account has the stream that it had. The peers of
-- the account are a map, with one stream for each.
pub notify_all_peers-at :
    (e : ℕ) (a payload : String) (sends : Stream → Bool) (st : Streams)
    → IsMap ◌=ₛ◌ (peers_of a (accounts_of e st))
    → (e' : ℕ) (a' p' : String)
    → stream_at e' a' p' (notify_all_peers e a payload sends st).1 ≡ (
        if e == e' && (a =ₛ a' && is_lost sends (stream_at e a p' st))
        then none
        else stream_at e' a' p' st)
unfolding notify_all_peers
notify_all_peers-at e a payload sends st h e' a' p' =
    notify_each-at a (record { event_type = e; payload = payload }) sends
      (peers_of a (accounts_of e st)) st e' a' p'
    ∙ ap (λ b. if e == e' && (a =ₛ a' && b) then none else stream_at e' a' p' st)
        (fails-lost sends p' (peers_of a (accounts_of e st)) h)
