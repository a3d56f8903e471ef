-- ===== src/Subscribe/WellFormed.antt =====
-- The maps of streams are well formed: each key stands once, and every account has peers.
use any_sync_coordinator.Prelude.{
  ℕ, String, Bool, true, false, inl, inr, Option-cases, List, [], ◌∷◌, ◌==◌, ◌=ₛ◌, All,
  if◌then◌else◌,
}
use any_sync_coordinator.Prelude.Assoc.{
  lookup, put, IsMap, IsMap-put, IsMap-remove, All-remove, All-lookup,
}
use any_sync_coordinator.Subscribe.{
  Stream, Peers, Accounts, Streams, Subscription, NotifyEvent, accounts_of, peers_of, init_streams,
  add_stream, without_peer, remove_stream, notify_each, notify_all_peers,
}

abbrev pub IsPeers : Peers → Type 0
IsPeers [] = ⊥
IsPeers (x ∷ ps) = IsMap ◌=ₛ◌ (x ∷ ps)

abbrev pub IsAccounts : Accounts → Type 0
IsAccounts accounts = IsMap ◌=ₛ◌ accounts × All (λ x. IsPeers x.1) accounts

abbrev pub IsWellFormed : Streams → Type 0
IsWellFormed st = IsMap ◌==◌ st × All (λ x. IsAccounts x.1) st

IsPeers-IsMap : (ps : Peers) → IsPeers ps → IsMap ◌=ₛ◌ ps
IsPeers-IsMap [] h = elim h [ ]
IsPeers-IsMap (x ∷ ps) h = h

peers_of-IsMap :
    (a : String) (accounts : Accounts) → IsAccounts accounts → IsMap ◌=ₛ◌ (peers_of a accounts)
peers_of-IsMap a accounts h = elim (Option-cases (lookup ◌=ₛ◌ a accounts)) [
  | inl p ↦ rw p tt
  | inr (ps, p) ↦ rw p (IsPeers-IsMap ps (All-lookup ◌=ₛ◌ IsPeers a accounts ps h.1 p))
]

pub accounts_of-IsAccounts :
    (e : ℕ) (st : Streams) → IsWellFormed st → IsAccounts (accounts_of e st)
accounts_of-IsAccounts e st h = elim (Option-cases (lookup ◌==◌ e st)) [
  | inl p ↦ rw p (tt, tt)
  | inr (accounts, p) ↦ rw p (All-lookup ◌==◌ IsAccounts e st accounts h.1 p)
]

-- The peers of an account are a map.
pub peers-IsMap :
    (e : ℕ) (a : String) (st : Streams)
    → IsWellFormed st
    → IsMap ◌=ₛ◌ (peers_of a (accounts_of e st))
peers-IsMap e a st h = peers_of-IsMap a (accounts_of e st) (accounts_of-IsAccounts e st h)

put-IsAccounts :
    (a : String) (ps : Peers) (accounts : Accounts)
    → IsAccounts accounts
    → IsPeers ps
    → IsAccounts (put ◌=ₛ◌ a ps accounts)
put-IsAccounts a ps accounts h g =
    (IsMap-put ◌=ₛ◌ a ps accounts h.0, (g, All-remove ◌=ₛ◌ (λ x. IsPeers x.1) a accounts h.1))

put-IsWellFormed :
    (e : ℕ) (accounts : Accounts) (st : Streams)
    → IsWellFormed st
    → IsAccounts accounts
    → IsWellFormed (put ◌==◌ e accounts st)
put-IsWellFormed e accounts st h g =
    (IsMap-put ◌==◌ e accounts st h.0, (g, All-remove ◌==◌ (λ x. IsAccounts x.1) e st h.1))

without_peer-IsAccounts :
    (a : String) (ps : Peers) (accounts : Accounts)
    → IsAccounts accounts
    → IsMap ◌=ₛ◌ ps
    → IsAccounts (without_peer a ps accounts)
without_peer-IsAccounts a [] accounts h g =
    (IsMap-remove ◌=ₛ◌ a accounts h.0, All-remove ◌=ₛ◌ (λ x. IsPeers x.1) a accounts h.1)
without_peer-IsAccounts a (x ∷ ps) accounts h g = put-IsAccounts a (x ∷ ps) accounts h g

pub remove_stream-IsWellFormed :
    (e : ℕ) (a p : String) (st : Streams) → IsWellFormed st → IsWellFormed (remove_stream e a p st)
unfolding remove_stream
remove_stream-IsWellFormed e a p st h = elim (Option-cases (lookup ◌==◌ e st)) [
  | inl q ↦ rw q h
  | inr (accounts, q) ↦
      let g = All-lookup ◌==◌ IsAccounts e st accounts h.1 q in
      rw q (
        put-IsWellFormed e _ st h (
          without_peer-IsAccounts a _ accounts g
            (IsMap-remove ◌=ₛ◌ p (peers_of a accounts) (peers_of-IsMap a accounts g))))
]

pub add_stream-IsWellFormed :
    (n : Subscription) (st : Streams) → IsWellFormed st → IsWellFormed (add_stream n st).1
unfolding add_stream
add_stream-IsWellFormed n st h = elim (Option-cases (lookup ◌==◌ n.event_type st)) [
  | inl q ↦ rw q h
  | inr (accounts, q) ↦
      let g = All-lookup ◌==◌ IsAccounts n.event_type st accounts h.1 q in
      elim (Option-cases (lookup ◌=ₛ◌ n.peer_id (peers_of n.account_id accounts))) [
        | inr (s, r) ↦ rw (q, r) h
        | inl r ↦
            rw (q, r)
              (put-IsWellFormed n.event_type
                (put ◌=ₛ◌ n.account_id
                  (put ◌=ₛ◌ n.peer_id n.stream (peers_of n.account_id accounts)) accounts)
                st h
                (put-IsAccounts n.account_id
                  (put ◌=ₛ◌ n.peer_id n.stream (peers_of n.account_id accounts)) accounts g
                  (IsMap-put ◌=ₛ◌ n.peer_id n.stream (peers_of n.account_id accounts)
                    (peers_of-IsMap n.account_id accounts g))))
      ]
]

notify_each-IsWellFormed :
    (a : String) (event : NotifyEvent) (sends : Stream → Bool) (ps : Peers) (st : Streams)
    → IsWellFormed st
    → IsWellFormed (notify_each a event sends ps st).1
unfolding notify_each
notify_each-IsWellFormed a event sends [] st h = h
notify_each-IsWellFormed a event sends ((p, s) ∷ ps) st h =
    notify_each-IsWellFormed a event sends ps _ (after (sends s))
  where
    after : (b : Bool) → IsWellFormed (if b then st else remove_stream event.event_type a p st)
    after true = h
    after false = remove_stream-IsWellFormed event.event_type a p st h

pub notify_all_peers-IsWellFormed :
    (e : ℕ) (a payload : String) (sends : Stream → Bool) (st : Streams)
    → IsWellFormed st
    → IsWellFormed (notify_all_peers e a payload sends st).1
unfolding notify_all_peers
notify_all_peers-IsWellFormed e a payload sends st h =
    notify_each-IsWellFormed a _ sends (peers_of a (accounts_of e st)) st h

pub init_streams-IsWellFormed : (es : List ℕ) → IsWellFormed (init_streams es)
unfolding init_streams
init_streams-IsWellFormed [] = (tt, tt)
init_streams-IsWellFormed (e ∷ es) =
    put-IsWellFormed e [] (init_streams es) (init_streams-IsWellFormed es) (tt, tt)
