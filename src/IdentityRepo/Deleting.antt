-- ===== src/IdentityRepo/Deleting.antt =====
-- What a deletion requires and does.
use any_sync_coordinator.Prelude.{
  String, Bool, true, false, ◌&&◌, ◌||◌, ◌≡◌, refl, ap, ◌∙◌, inl, inr, Bool-cases, none,
  Option-cases, ℤ, List, [], ◌∷◌, ◌=ₛ◌, =ₛ_iff, first, replace_first, drop_first, arith,
  if◌then◌else◌,
}
use any_sync_coordinator.Prelude.Assoc.{lookup, remove, lookup-remove}
use any_sync_coordinator.Outcome.{Result, ok, lift, >>=-reads}
use any_sync_coordinator.Mongo.{Mongo, Documented}
use any_sync_coordinator.Keys.{Keys}
use any_sync_coordinator.IdentityRepo.{
  Kinds, Paths, all_plain, Entry, Entries, unset_all, with_kinds, delete_kinds, delete,
}
use any_sync_coordinator.IdentityRepo.Keyed.{by, IsKeyed, first-drop, replace-same, replace-other}
use any_sync_coordinator.IdentityRepo.Publishing.{kinds_of, datum_at, validated}

abbrev is_one : String → List String → Bool
is_one kind [] = false
is_one kind (x ∷ xs) = x =ₛ kind || is_one kind xs

-- No kinds stand for all of them.
abbrev pub is_asked : String → List String → Bool
is_asked kind [] = true
is_asked kind (x ∷ xs) = is_one kind (x ∷ xs)

lookup-unset :
    (kind : String) (kinds : List String) (m : Kinds)
    → lookup ◌=ₛ◌ kind (unset_all kinds m)
      ≡ (if is_one kind kinds then none else lookup ◌=ₛ◌ kind m)
unfolding unset_all
lookup-unset kind [] m = refl
lookup-unset kind (x ∷ xs) m =
    lookup-unset kind xs (remove ◌=ₛ◌ x m) ∙ ground (arith, lookup-remove ◌=ₛ◌ =ₛ_iff x kind m)

unmatched_replace :
    (q : Entry → Bool) (f : Entry → Entry) (es : Entries)
    → first q es ≡ none
    → replace_first q f es ≡ es
unmatched_replace q f [] h = refl
unmatched_replace q f (e ∷ es) h = ground (arith, unmatched_replace q f es)

module _ {m : Mongo} (law : Documented m) (paths : Paths) (now : ℤ) (identity : String)
    (es : Entries) where
  dropped :
      (u : Unit {0})
      → (delete_kinds m paths now identity [] es).0 ≡ ok u
      → (delete_kinds m paths now identity [] es).1 ≡ drop_first (by identity) es
  unfolding delete_kinds
  dropped u h = ground (arith, law.delete_one_lem Entry (by identity) es)

  unset :
      (x : String) (xs : List String) (u : Unit {0})
      → all_plain (x ∷ xs) ≡ true
      → (delete_kinds m paths now identity (x ∷ xs) es).0 ≡ ok u
      → (delete_kinds m paths now identity (x ∷ xs) es).1
        ≡ replace_first (by identity) (with_kinds now (unset_all (x ∷ xs))) es
  unfolding delete_kinds
  unset x xs u plain h = ground (
    arith,
    plain,
    law.update_one_lem Entry (by identity) (with_kinds now (unset_all (x ∷ xs))) es,
  )

  abbrev IsDeleted : List String → Entries → Type 0
  IsDeleted kinds es' =
      (i kind : String)
      → datum_at i kind es'
        ≡ (if identity =ₛ i && is_asked kind kinds then none else datum_at i kind es)

  dropped-at : IsKeyed es → IsDeleted [] (drop_first (by identity) es)
  dropped-at keyed i kind =
      ap (λ o. lookup ◌=ₛ◌ kind (kinds_of o)) (first-drop identity i es keyed) ∙ ground arith

  unset-own :
      (kinds : List String) (kind : String)
      → datum_at identity kind (replace_first (by identity) (with_kinds now (unset_all kinds)) es)
        ≡ (if is_one kind kinds then none else datum_at identity kind es)
  unset-own kinds kind = elim (Option-cases (first (by identity) es)) [
    | inl gone ↦
        ap (λ l. datum_at identity kind l)
          (unmatched_replace (by identity) (with_kinds now (unset_all kinds)) es gone)
        ∙ rw gone (ground arith)
    | inr (e, there) ↦
        ap (λ o. lookup ◌=ₛ◌ kind (kinds_of o))
          (replace-same (with_kinds now (unset_all kinds)) (λ x. refl) identity es e there)
        ∙ lookup-unset kind kinds e.kinds
        ∙ rw there refl
  ]

  unset-at :
      (x : String) (xs : List String)
      → IsDeleted (x ∷ xs) (replace_first (by identity) (with_kinds now (unset_all (x ∷ xs))) es)
  unset-at x xs i kind = elim (Bool-cases (identity =ₛ i)) [
    | inl p ↦ rw (p, ← (=ₛ_iff identity i).0 p) (unset-own (x ∷ xs) kind)
    | inr p ↦ rw p (
        ap (λ o. lookup ◌=ₛ◌ kind (kinds_of o))
          (replace-other (with_kinds now (unset_all (x ∷ xs))) (λ e. refl) identity i es p))
  ]

  delete_kinds-IsDeleted :
      (kinds : List String) (u : Unit {0})
      → IsKeyed es
      → all_plain kinds ≡ true
      → (delete_kinds m paths now identity kinds es).0 ≡ ok u
      → IsDeleted kinds (delete_kinds m paths now identity kinds es).1
  delete_kinds-IsDeleted [] u keyed plain h i kind =
      ap (datum_at i kind) (dropped u h) ∙ dropped-at keyed i kind
  delete_kinds-IsDeleted (x ∷ xs) u keyed plain h i kind =
      ap (datum_at i kind) (unset x xs u plain h) ∙ unset-at x xs i kind

  -- A deletion that succeeds, of kinds that are plain names (not empty, without a dot or NUL, and
  -- without a dollar at the start), where no two entries have the same id: the caller's account is the
  -- identity. Afterwards the identity has none of the kinds of the request, or no kind at all if the
  -- request names none; of every other kind, and every other identity, there is what there was.
  pub delete-ok :
      (k : Keys) (pub_key : Result k.PubKey) (kinds : List String) (u : Unit {0})
      → IsKeyed es
      → all_plain kinds ≡ true
      → (delete m paths k pub_key now identity kinds es).0 ≡ ok u
      → (key : k.PubKey) × (pub_key ≡ ok key)
        × (k.account key ≡ identity)
        × ((i kind : String)
            → datum_at i kind (delete m paths k pub_key now identity kinds es).1
              ≡ (if identity =ₛ i && is_asked kind kinds then none else datum_at i kind es))
  unfolding delete lift
  delete-ok k pub_key kinds u keyed plain h =
      let (v, p, step, h') = >>=-reads _ _ es u refl h in
      let (key, known, own, _) = validated k pub_key identity [] v p in
      (
        key,
        known,
        own,
        λ i kind.
            ap (λ r. datum_at i kind r.1) step
            ∙ delete_kinds-IsDeleted kinds u keyed plain h' i kind,
      )
