-- ===== src/SpaceStatus/AccountLoop.antt =====
-- The loops of AccountDelete and AccountRevertDeletion, as one update of all spaces of a query.
use any_sync_coordinator.Prelude.{
  ℕ, String, Bool, true, false, ◌≡◌, refl, sym, subst, ap, ◌∙◌, inl, inr, ◌=ₛ◌, =ₛ_iff, ◌||◌,
  Bool-cases, Option, none, some, List, [], ◌∷◌, map, All, select, arith, if◌then◌else◌,
}
use any_sync_coordinator.Outcome.{ok, pure, >>=-ok}
use any_sync_coordinator.Docs.{World, SpaceDoc, StatusEntry, status_entry}
use any_sync_coordinator.Mongo.{Mongo, Documented}
use any_sync_coordinator.Keys.{Keys}
use any_sync_coordinator.SpaceStatus.{StatusChange, modify_status_op, set_status_tx}
use any_sync_coordinator.SpaceStatus.Deletion.{set_each}
use any_sync_coordinator.SpaceStatus.Invariant.{IsConsistent, set_status_tx-IsConsistent}
use any_sync_coordinator.SpaceStatus.KeepsDeletion.{IsNamed}
use any_sync_coordinator.SpaceStatus.Keyed.{space_at, DiffersFrom, IsKeyed}
use any_sync_coordinator.SpaceStatus.Transition.{set_status_tx-Changed}

abbrev pub map_doc : (SpaceDoc → SpaceDoc) → Option SpaceDoc → Option SpaceDoc
map_doc f none = none
map_doc f (some d) = some (f d)

abbrev pub listed : String → List StatusEntry → Bool
listed j [] = false
listed j (e ∷ es) = e.space_id =ₛ j || listed j es

abbrev pub passes : (SpaceDoc → Bool) → Option SpaceDoc → Bool
passes q none = false
passes q (some d) = q d

not_listed :
    (j : String) (q : SpaceDoc → Bool) (ds : List SpaceDoc)
    → All (DiffersFrom j) ds
    → listed j (map status_entry (select q ds)) ≡ false
not_listed j q [] h = refl
not_listed j q (d ∷ ds) h = ground (arith, not_listed j q ds)

differs_at :
    (i j : String) (ds : List SpaceDoc)
    → (i =ₛ j) ≡ true
    → All (DiffersFrom i) ds
    → All (DiffersFrom j) ds
differs_at i j ds e h = subst (λ x. All (DiffersFrom x) ds) ((=ₛ_iff i j).0 e) h

-- An id is among the selected entries exactly if its document passes the query.
pub listed-select :
    (j : String) (q : SpaceDoc → Bool) (ds : List SpaceDoc)
    → IsKeyed ds
    → listed j (map status_entry (select q ds)) ≡ passes q (space_at j ds)
listed-select j q [] h = refl
listed-select j q (d ∷ ds) h = elim (Bool-cases (d.space_id =ₛ j)) [
  | inl p ↦ ground (arith, not_listed j q ds (differs_at d.space_id j ds p h.0))
  | inr p ↦ ground (arith, listed-select j q ds h.1)
]

module _ {m : Mongo} (law : Documented m) (k : Keys) (change : String → StatusChange k.PubKey)
    (old : ℕ) (op : SpaceDoc → SpaceDoc) (same : (i : String) → (change i).space_id ≡ i)
    (uniform : (i : String) (d : SpaceDoc) → modify_status_op (change i) d ≡ op d)
    (again : (d : SpaceDoc) → op (op d) ≡ op d) where
  -- What a step of the loop and the rest of it do to one space.
  two_updates :
      (j : String) (e : StatusEntry) (es : List StatusEntry) (d : SpaceDoc)
      (before between after : Option SpaceDoc)
      → (e.space_id =ₛ j ≡ true → before ≡ some d)
      → between ≡ (if e.space_id =ₛ j then some (op d) else before)
      → after ≡ (if listed j es then map_doc op between else between)
      → after ≡ (if listed j (e ∷ es) then map_doc op before else before)
  two_updates j e es d before between after was b a = ground (arith, again d)

  pub set_each-spaces :
      (es : List StatusEntry) (w : World) (u : Unit {0})
      → All IsNamed es
      → IsConsistent w
      → (set_each m k change old es w).0 ≡ ok u
      → (j : String)
      → space_at j (set_each m k change old es w).1.spaces
        ≡ (if listed j es then map_doc op (space_at j w.spaces) else space_at j w.spaces)
  unfolding set_each
  set_each-spaces [] w u named h p j = unfold pure in refl
  set_each-spaces (e ∷ es) w u named h p j =
      let c = change e.space_id in
      let first_step = set_status_tx m k c old in
      let rest = set_each m k change old es in
      let (e', q, step) = >>=-ok first_step (λ _. rest) w u p in
      let named' : (c.space_id =ₛ "") ≡ false = rw same named.0 in
      let (d, s, done, logs, log) = set_status_tx-Changed law k c old w e' named' h q in
      let h' = ((set_status_tx-IsConsistent law k c old named').at w e' h q).0 in
      let ih = set_each-spaces es (first_step w).1 u named.1 h' (ap (λ r. r.0) (sym step) ∙ p) j in
      two_updates j e es d (space_at j w.spaces) (space_at j (first_step w).1.spaces) _
        (λ t.
          ap (λ i. space_at i w.spaces) (sym (same e.space_id ∙ (=ₛ_iff e.space_id j).0 t))
          ∙ done.was)
        (done.spaces j ∙ cc (same e.space_id, uniform e.space_id d))
        (ap (λ r. space_at j r.1.spaces) step ∙ ih)
