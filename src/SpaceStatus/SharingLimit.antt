-- ===== src/SpaceStatus/SharingLimit.antt =====
-- The limit on the shareable spaces of an account, as MakeShareable enforces it.
use any_sync_coordinator.Prelude.{
  ℕ, ◌+◌, ◌%◌, ◌^◌, ◌≤◌, ◌<◌, String, Bool, true, false, ◌≡◌, ◌⊎◌, inl, inr, refl, sym, subst, ap,
  ◌=ₛ◌, ◌==◌, ◌&&◌, Option, none, some, Option-cases, Bool-cases, List, [], ◌∷◌, count,
  replace_first, leb, arith, if◌then◌else◌,
}
use any_sync_coordinator.Outcome.{
  space_limit_reached, ok, Action, pure, raise_if, ◌>>=◌, ◌>>◌, >>=-reads,
}
use any_sync_coordinator.Docs.{World, SpaceDoc, StatusEntry}
use any_sync_coordinator.Docs.Status
use any_sync_coordinator.Mongo.{Mongo, Documented}
use any_sync_coordinator.Mongo.Laws.{tx-ok}
use any_sync_coordinator.SpaceStatus.{status}
use any_sync_coordinator.SpaceStatus.Reads.{status-same}
use any_sync_coordinator.SpaceStatus.Sharing.{
  shareable_query, set_shareable, make_shareable_tx, make_shareable,
}

-- Changing one document adds at most one to a count.
count-replace :
    (q p : SpaceDoc → Bool) (f : SpaceDoc → SpaceDoc) (ds : List SpaceDoc)
    → count q (replace_first p f ds) ≤ count q ds + 1
count-replace q p f [] = omega arith
count-replace q p f (d ∷ ds) = ground (arith, count-replace q p f ds)

abbrev has_type : ℕ → Option ℕ → Bool
has_type t none = false
has_type t (some u) = u == t

-- A created space of the account that is shareable and of the type.
abbrev pub is_shared_space : String → ℕ → SpaceDoc → Bool
is_shared_space account t d =
    d.status == Status.created && (d.is_shareable && (d.identity =ₛ account && has_type t d.type))

-- The shareable spaces of an account and a type that are created.
abbrev pub shareable_spaces : String → ℕ → World → ℕ
shareable_spaces account t w = count (is_shared_space account t) w.spaces

-- The query of MakeShareable matches these spaces.
query-is_shared_space :
    (account : String) (t : ℕ) (ds : List SpaceDoc)
    → count (shareable_query account t) ds ≡ count (is_shared_space account t) ds
unfolding shareable_query
query-is_shared_space account t [] = refl
query-is_shared_space account t (d ∷ ds) = elim (Option-cases d.type) [
  | inl p ↦ ground (arith, p, query-is_shared_space account t ds)
  | inr (u, p) ↦ ground (arith, p, query-is_shared_space account t ds)
]

module _ {m : Mongo} (law : Documented m) (i : String) (t limit : ℕ) where
  set_shareable-adds :
      (account : String) (w : World)
      → shareable_spaces account t (set_shareable m i true w).1 ≤ shareable_spaces account t w + 1
  unfolding set_shareable
  set_shareable-adds account w = ground (
    arith,
    law.update_one_lem SpaceDoc (λ d. d.space_id =ₛ i) (λ d. record d { is_shareable = true })
        w.spaces,
    count-replace (is_shared_space account t) (λ d. d.space_id =ₛ i)
        (λ d. record d { is_shareable = true }) w.spaces,
  )

  abbrev SharedBy : StatusEntry → World → World → Type 0
  SharedBy entry w w' =
      ((entry.is_shareable ≡ true) × (w' ≡ w))
      ⊎ ((entry.is_shareable ≡ false) × (shareable_spaces entry.identity t w' ≤ limit))

  -- What a success of MakeShareable means.
  abbrev Shared : World → World → Type 0
  Shared w w' = (entry : StatusEntry) × ((status m i w).0 ≡ ok entry) × SharedBy entry w w'

  abbrev counted : StatusEntry → Action World ℕ
  counted entry w = (m.count_documents SpaceDoc (shareable_query entry.identity t) w.spaces, w)

  share_rest : (entry : StatusEntry) → Action World (Unit {0})
  share_rest entry = do
    n ← counted entry
    raise_if (leb limit (n % 2 ^ 32)) space_limit_reached
    set_shareable m i true

  rest-limit :
      (entry : StatusEntry) (w : World) (u : Unit {0})
      → shareable_spaces entry.identity t w < 2 ^ 32
      → (share_rest entry w).0 ≡ ok u
      → shareable_spaces entry.identity t (share_rest entry w).1 ≤ limit
  unfolding share_rest raise_if ◌>>=◌
  rest-limit entry w u small h = ground (
    arith,
    law.count_documents_lem SpaceDoc (shareable_query entry.identity t) w.spaces,
    query-is_shared_space entry.identity t w.spaces,
    set_shareable-adds entry.identity w,
  )

  branch :
      (entry : StatusEntry) (w : World) (u : Unit {0})
      → shareable_spaces entry.identity t w < 2 ^ 32
      → ((if entry.is_shareable then pure tt else share_rest entry) w).0 ≡ ok u
      → SharedBy entry w ((if entry.is_shareable then pure tt else share_rest entry) w).1
  unfolding pure share_rest
  branch entry w u small h = elim (Bool-cases entry.is_shareable) [
    | inl q ↦ inl (q, rw q refl)
    | inr q ↦ inr (q, rw q (rest-limit entry w u small (rw q at h)))
  ]

  make_shareable_tx-Shared :
      (w : World) (u : Unit {0})
      → ((account : String) → shareable_spaces account t w < 2 ^ 32)
      → (make_shareable_tx m i t limit w).0 ≡ ok u
      → Shared w (make_shareable_tx m i t limit w).1
  unfolding make_shareable_tx share_rest
  make_shareable_tx-Shared w u small h =
      let (entry, p, step, h') = >>=-reads (status m i) _ w u (status-same m w i) h in
      (
        entry,
        p,
        subst (SharedBy entry w) (ap (λ r. r.1) (sym step))
            (branch entry w u (small entry.identity) h'),
      )

  -- A MakeShareable that succeeds, where every account has fewer than 2^32 shareable spaces of
  -- the given type that are created: the space was shareable already, and nothing is changed; or
  -- it was not, and its owner has no more shareable spaces of the type that are created
  -- afterwards than the limit allows.
  pub make_shareable-Shared :
      (w : World) (u : Unit {0})
      → ((account : String) → shareable_spaces account t w < 2 ^ 32)
      → (make_shareable m i t limit w).0 ≡ ok u
      → Shared w (make_shareable m i t limit w).1
  unfolding make_shareable
  make_shareable-Shared w u small h =
      let (body, world) = tx-ok law _ w u h in
      subst (Shared w) (sym world) (make_shareable_tx-Shared w u small body)
