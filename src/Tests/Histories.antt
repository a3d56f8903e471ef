-- ===== src/Tests/Histories.antt =====
-- Subscriptions over time, and the listener of the inbox: a tablet subscribes, and its stream ends.
use any_sync_coordinator.Prelude.{
  String, false, ◌⊎◌, ◌≡◌, ◌≢◌, refl, some, [], ◌∷◌, ◌==◌, ◌=ₛ◌, =ₛ_iff, map, select, pos, arith,
  sym, inl, inr, Bool-cases,
}
use any_sync_coordinator.Outcome.{ok, err, lift, nil_dereference, ◌>>=◌}
use any_sync_coordinator.Mongo.Memory.{memory, memory-Documented}
use any_sync_coordinator.Mongo.Ordered.{IsOrdered}
use any_sync_coordinator.Inbox.{
  inbox_add_message, insert_message, verify_signature, message_from_request,
}
use any_sync_coordinator.Inbox.Arrival.{Arrived, message-Arrived}
use any_sync_coordinator.Inbox.Delivery.{IsSubscribed, event, stream_listener-delivers}
use any_sync_coordinator.Inbox.Fetching.{sent_to}
use any_sync_coordinator.Inbox.Listener.{stream_listener, change_of}
use any_sync_coordinator.Subscribe.{
  Subscription, accounts_of, add_stream, init_streams, wait_close_stream,
}
use any_sync_coordinator.Subscribe.Copies.{sent_on}
use any_sync_coordinator.Subscribe.Histories.{
  System, registered, Reach, here, next, subscribed, ended, initial, IsSound,
}
use any_sync_coordinator.Subscribe.Sound.{is_one_of, history-IsSound, all_ended-empty}
use any_sync_coordinator.Subscribe.Streams.{stream_at}
use any_sync_coordinator.Tests.Inbox.{messages, invite, invite_added}
use any_sync_coordinator.Tests.{keys}
use any_sync_coordinator.Tests.Streams.{streams, tablet}

abbrev tablet_there : System
tablet_there =
    registered tablet (initial (0 ∷ [])).waiting (add_stream tablet (initial (0 ∷ [])).streams)

tablet_subscribes : Reach (initial (0 ∷ [])) tablet_there
tablet_subscribes = next here (subscribed tablet)

history-IsSound_example :
    IsSound (0 ∷ []) tablet_there
    × ((n : Subscription)
        → (is_one_of n.event_type (0 ∷ []) ≡ false)
          ⊎ ((add_stream n tablet_there.streams).0 ≢ err nil_dereference))
history-IsSound_example = history-IsSound (0 ∷ []) tablet_subscribes

tablet_waits : tablet_there.waiting ≡ tablet ∷ []
unfolding add_stream init_streams
tablet_waits = refl

abbrev tablet_gone : System
tablet_gone = record { streams = wait_close_stream tablet tablet_there.streams; waiting = [] }

tablet_ends : Reach (initial (0 ∷ [])) tablet_gone
tablet_ends = next tablet_subscribes (ended [] tablet [] tablet_waits)

all_ended-empty_example : accounts_of 0 tablet_gone.streams ≡ []
all_ended-empty_example = all_ended-empty (0 ∷ []) tablet_ends refl 0

-- The phone of bob has the stream 1, and no other peer has it.
only_phone : (a p : String) → stream_at 0 a p streams ≡ some 1 → (a ≡ "bob") × (p ≡ "phone")
only_phone a p h = elim (Bool-cases ("bob" =ₛ a)) [
  | inr x ↦ absurd (cc (rw x at h))
  | inl x ↦ elim (Bool-cases ("phone" =ₛ p)) [
    | inl y ↦ (sym ((=ₛ_iff "bob" a).0 x), sym ((=ₛ_iff "phone" p).0 y))
    | inr y ↦ elim (Bool-cases ("laptop" =ₛ p)) [
      | inl z ↦ absurd (cc (rw (x, y, z) at h))
      | inr z ↦ absurd (cc (rw (x, y, z) at h))
    ]
  ]
]

phone : IsSubscribed 0 "bob" "phone" 1 streams
phone = record {
  well_formed = ((tt, tt), (((tt, tt), (((refl, tt), (tt, tt)), tt)), tt));
  subscribed = refl;
  only = only_phone;
}

-- The phone is told of the two messages to bob; every stream but the laptop's can be sent to.
stream_listener-delivers_example :
    let l = stream_listener 0 (λ i s. s == 1) (map (change_of memory) messages) streams in
    (l.outcome ≡ ok tt)
    × (sent_on 1 l.sent
        ≡ map
            (λ msg. (1, event 0 "bob" "phone" 1 (memory.hex msg.id)))
            (select (sent_to "bob") messages))
    × IsSubscribed 0 "bob" "phone" 1 l.streams
stream_listener-delivers_example =
    stream_listener-delivers 0 "bob" "phone" 1 memory (λ i s. s == 1) (λ i. refl) messages streams
      phone

invite-IsOrdered :
    IsOrdered (λ x. x.id) (inbox_add_message memory keys (ok "eve") (pos 9) invite messages).1
unfolding inbox_add_message insert_message verify_signature message_from_request lift ◌>>=◌
invite-IsOrdered = (
  (omega arith, (omega arith, (omega arith, tt))),
  ((omega arith, (omega arith, tt)), ((omega arith, tt), (tt, tt))),
)

-- Eve invites bob, whose phone is told of it.
message-Arrived_example :
    Arrived memory-Documented keys 0 messages
      (ok "eve")
      (pos 9)
      invite
      0
      "phone"
      1
      (λ i s. s == 1)
      streams
      "bob"
message-Arrived_example =
    message-Arrived memory-Documented keys 0 messages (ok "eve") (pos 9) invite 0 "phone" 1
      (λ i s. s == 1) streams "bob" tt refl (λ i. refl) phone invite_added invite-IsOrdered
