-- ===== src/Inbox/Delivery.antt =====
-- Which events a subscriber is sent for new messages.
use any_sync_coordinator.Prelude.{
  ℕ, String, Bool, true, false, ◌&&◌, ◌≡◌, refl, sym, subst, ap, ◌∙◌, inl, inr, some, Bool-cases,
  [], ◌∷◌, ◌++◌, ◌==◌, ◌=ₛ◌, =ₛ_iff, map, select, select-append, arith, if◌then◌else◌,
}
use any_sync_coordinator.Outcome.{ok}
use any_sync_coordinator.Mongo.{Mongo}
use any_sync_coordinator.Inbox.{Messages}
use any_sync_coordinator.Inbox.Fetching.{sent_to}
use any_sync_coordinator.Inbox.Listener.{stream_listener, change_of}
use any_sync_coordinator.Subscribe.{
  Stream, Streams, NotifyEvent, accounts_of, peers_of, notify_all_peers,
}
use any_sync_coordinator.Subscribe.Awaited.{notified-at}
use any_sync_coordinator.Subscribe.Copies.{sent_on, no_copy, one_copy}
use any_sync_coordinator.Subscribe.Notify.{is_lost, notify_all_peers-at, notify_all_peers-sent}
use any_sync_coordinator.Subscribe.Streams.{stream_at}
use any_sync_coordinator.Subscribe.WellFormed.{
  IsWellFormed, peers-IsMap, notify_all_peers-IsWellFormed,
}

module _ (event_type : ℕ) (a p : String) (s : Stream) where
  -- The stream is that of a peer of the account, and of no other.
  pub record IsSubscribed (st : Streams) : Type 0 where
    pub well_formed : IsWellFormed st
    pub subscribed : stream_at event_type a p st ≡ some s
    pub only : (a' p' : String) → stream_at event_type a' p' st ≡ some s → (a' ≡ a) × (p' ≡ p)

  abbrev pub event : String → NotifyEvent
  event payload = record { event_type = event_type; payload = payload }

  notified-IsSubscribed :
      (a' payload : String) (sends : Stream → Bool) (st : Streams)
      → sends s ≡ true
      → IsSubscribed st
      → IsSubscribed (notify_all_peers event_type a' payload sends st).1
  notified-IsSubscribed a' payload sends st good h = record {
    well_formed = notify_all_peers-IsWellFormed event_type a' payload sends st h.well_formed;
    subscribed =
        (notify_all_peers-at event_type a' payload sends st
            (peers-IsMap event_type a' st h.well_formed) event_type a p
          ∙ ground (arith, kept, h.subscribed));
    only = λ a'' p' g.
        h.only a'' p'
          (notified-at event_type a' payload sends st h.well_formed event_type a'' p' s g);
  }
    where
      kept : (a' =ₛ a && is_lost sends (stream_at event_type a' p st)) ≡ false
      kept = elim (Bool-cases (a' =ₛ a)) [
        | inr q ↦ rw q refl
        | inl q ↦
            rw (q, ap (λ x. stream_at event_type x p st) ((=ₛ_iff a' a).0 q), h.subscribed, good)
              refl
      ]

  -- One notification reaches the stream once, if it is for the account.
  one_notification :
      (a' payload : String) (sends : Stream → Bool) (st : Streams)
      → IsSubscribed st
      → sent_on s (notify_all_peers event_type a' payload sends st).0
        ≡ (if a' =ₛ a then (s, event payload) ∷ [] else [])
  one_notification a' payload sends st h =
      ap (sent_on s) (notify_all_peers-sent event_type a' payload sends st)
      ∙ elim (Bool-cases (a' =ₛ a)) [
        | inl q ↦ rw q (
            one_copy (event payload) s p (peers_of a' (accounts_of event_type st))
              (peers-IsMap event_type a' st h.well_formed)
              (subst (λ x. stream_at event_type x p st ≡ some s) (sym ((=ₛ_iff a' a).0 q))
                h.subscribed)
              (λ p' g. (h.only a' p' g).1))
        | inr q ↦ rw q (
            no_copy (event payload) s (peers_of a' (accounts_of event_type st))
              (peers-IsMap event_type a' st h.well_formed)
              (λ p' g. cc (q, (=ₛ_iff a' a).1 (h.only a' p' g).0)))
      ]

  module _ (m : Mongo) (sends : String → Stream → Bool)
      (good : (payload : String) → sends payload s ≡ true) where
    -- A peer that is subscribed, on a stream of its own that every event can be sent on, is sent one
    -- event for each new message to its account, with the id of the message, in the order of the
    -- messages, and no other event; and it stays subscribed.
    pub stream_listener-delivers :
        (ms : Messages) (st : Streams)
        → IsSubscribed st
        → let l = stream_listener event_type sends (map (change_of m) ms) st in
          (l.outcome ≡ ok tt)
          × (sent_on s l.sent ≡ map (λ msg. (s, event (m.hex msg.id))) (select (sent_to a) ms))
          × IsSubscribed l.streams
    unfolding stream_listener
    stream_listener-delivers [] st h = (refl, refl, h)
    stream_listener-delivers (msg ∷ ms) st h =
        let a' = msg.packet.receiver_identity in
        let i = m.hex msg.id in
        let st' = (notify_all_peers event_type a' i (sends i) st).1 in
        let l = stream_listener event_type sends (map (change_of m) ms) st' in
        let sub = notified-IsSubscribed a' i (sends i) st (good i) h in
        let (fine, rest, still) = stream_listener-delivers ms st' sub in
        (
          fine,
          select-append (λ x. x.0 == s) (notify_all_peers event_type a' i (sends i) st).0 l.sent
              ∙ ap (λ x. x ++ sent_on s l.sent) (one_notification a' i (sends i) st h)
              ∙ elim (Bool-cases (a' =ₛ a)) [
                | inl q ↦ rw q (ap (λ x. (s, event i) ∷ x) rest)
                | inr q ↦ rw q rest
              ],
          still,
        )
