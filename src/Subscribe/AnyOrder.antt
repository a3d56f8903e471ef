-- ===== src/Subscribe/AnyOrder.antt =====
-- A notification, whatever the order in which Go walks the map of the peers.
use any_sync_coordinator.Prelude.{
  ℕ, String, Bool, true, false, not, ◌&&◌, ◌||◌, ◌≡◌, refl, sym, subst, ap, ◌∙◌, none, ◌=ₛ◌, ◌==◌,
  map, if◌then◌else◌,
}
use mathlib.Core.List.{Perm, Permᴰ}
use mathlib.Core.List.Perm
use mathlib.Core.Bool.{Bool-set}
use mathlib.Core.Logic.{∥∥₁_elim}
use any_sync_coordinator.Subscribe.{
  Stream, Streams, Peers, NotifyEvent, accounts_of, peers_of, notify_each, notify_all_peers,
}
use any_sync_coordinator.Subscribe.Notify.{fails, notify_each-at, notify_each-sent}
use any_sync_coordinator.Subscribe.Streams.{stream_at}

swapped : (x y z : Bool) → (x || (y || z)) ≡ (y || (x || z))
swapped true true z = refl
swapped true false z = refl
swapped false y z = refl

module _ (sends : Stream → Bool) (p : String) where
  abbrev fails_here : String × Stream → Bool
  fails_here x = x.0 =ₛ p && not (sends x.1)

  fails-same : {ps ps' : Peers} → Permᴰ ps ps' → fails sends p ps ≡ fails sends p ps'
  fails-same Permᴰ.nil = refl
  fails-same (Permᴰ.cons {a = a} {b = b} {l₂ = l} e d) =
      ap (λ x. fails_here a || x) (fails-same d) ∙ ap (λ y. fails_here y || fails sends p l) e
  fails-same (Permᴰ.swap {a = a} {b = b} {l = l} e e') =
      swapped (fails_here a) (fails_here b) (fails sends p l)
      ∙ (λ i. fails_here (e' i) || (fails_here (e i) || fails sends p l))
  fails-same (Permᴰ.trans d d') = fails-same d ∙ fails-same d'

  fails-Perm : {ps ps' : Peers} → Perm ps ps' → fails sends p ps ≡ fails sends p ps'
  fails-Perm {ps} {ps'} d = ∥∥₁_elim d (Bool-set (fails sends p ps) (fails sends p ps')) fails-same

-- Go walks the map of an account's peers in any order. Whatever the order, the same events are sent on
-- the same streams, in another order, and every peer of every account and event type has the same
-- stream afterwards, or none.
pub notify_all_peers-any_order :
    (e : ℕ) (a payload : String) (sends : Stream → Bool) (st : Streams) (ps : Peers)
    → Perm (peers_of a (accounts_of e st)) ps
    → let event : NotifyEvent = record { event_type = e; payload = payload } in
      Perm (notify_all_peers e a payload sends st).0 (notify_each a event sends ps st).0
      × ((e' : ℕ) (a' p : String)
          → stream_at e' a' p (notify_all_peers e a payload sends st).1
            ≡ stream_at e' a' p (notify_each a event sends ps st).1)
unfolding notify_all_peers
notify_all_peers-any_order e a payload sends st ps d =
    let event : NotifyEvent = record { event_type = e; payload = payload } in
    let walked = peers_of a (accounts_of e st) in
    (
      subst (λ l. Perm l (notify_each a event sends ps st).0)
          (sym (notify_each-sent a event sends walked st))
          (subst (Perm (map (λ x. (x.1, event)) walked))
            (sym (notify_each-sent a event sends ps st)) (Perm.map (λ x. (x.1, event)) d)),
      λ e' a' p.
          notify_each-at a event sends walked st e' a' p
          ∙ ap (λ b. if e == e' && (a =ₛ a' && b) then none else stream_at e' a' p st)
              (fails-Perm sends p d)
          ∙ sym (notify_each-at a event sends ps st e' a' p),
    )
