-- ===== src/IdentityRepo/Pulling.antt =====
-- What a pull returns after a push.
use any_sync_coordinator.Prelude.{
  String, ◌≡◌, ◌⊎◌, refl, sym, subst, ap, ◌∙◌, inl, inr, Option, none, some, ℕ, ℤ, List, [], ◌∷◌,
  ◌=ₛ◌, =ₛ_iff, map, true, first, first-passes, select, arith,
}
use any_sync_coordinator.Prelude.Assoc.{lookup}
use any_sync_coordinator.Outcome.{Result, driver, ok, err, raise_if, pure, ◌>>=◌}
use any_sync_coordinator.Mongo.{Mongo, Documented}
use any_sync_coordinator.Keys.{Keys}
use any_sync_coordinator.IdentityRepo.{
  Data, Kinds, Paths, all_plain, Entry, Entries, is_one_of, pick, pull, push,
}
use any_sync_coordinator.IdentityRepo.Keyed.{by, IsKeyed, to_list, select-first}
use any_sync_coordinator.IdentityRepo.Publishing.{
  datum_at, latest, mine, result, result-present, result-IsKeyed, push-result,
}

abbrev with_kind : String → Option Data → Kinds → Kinds
with_kind kind none rest = rest
with_kind kind (some d) rest = (kind, d) ∷ rest

-- What is asked for and there, in the order of the question.
abbrev pub wanted : (String → Option Data) → List String → Kinds
wanted datum [] = []
wanted datum (kind ∷ kinds) = with_kind kind (datum kind) (wanted datum kinds)

pick-wanted :
    (kinds : List String) (m : Kinds) → pick kinds m ≡ wanted (λ kind. lookup ◌=ₛ◌ kind m) kinds
unfolding pick
pick-wanted [] m = refl
pick-wanted (kind ∷ kinds) m = ground (arith, pick-wanted kinds m)

wanted-same :
    (f g : String → Option Data) (kinds : List String)
    → ((kind : String) → f kind ≡ g kind)
    → wanted f kinds ≡ wanted g kinds
wanted-same f g [] h = refl
wanted-same f g (kind ∷ kinds) h =
    ap (λ o. with_kind kind o (wanted f kinds)) (h kind)
    ∙ ap (with_kind kind (g kind)) (wanted-same f g kinds h)

select-one : (i : String) (es : Entries) → select (is_one_of (i ∷ [])) es ≡ select (by i) es
unfolding is_one_of
select-one i [] = refl
select-one i (e ∷ es) = ground (arith, select-one i es)

module _ {m : Mongo} (law : Documented m) (identity : String) (kinds : List String) where
  -- A pull of one identity that has an entry.
  pull-entry :
      (es : Entries) (e : Entry)
      → IsKeyed es
      → first (by identity) es ≡ some e
      → (pull m (identity ∷ []) kinds es
          ≡ (ok ((identity, wanted (λ kind. datum_at identity kind es) kinds) ∷ []), es))
        ⊎ ((n : ℕ) × (pull m (identity ∷ []) kinds es ≡ (err (driver n), es)))
  unfolding pull pure raise_if ◌>>=◌
  pull-entry es e keyed there = elim (law.find_lem Entry (is_one_of (identity ∷ [])) es) [
    | inr (n, p) ↦ inr (n, rw p refl)
    | inl p ↦
        let found = select-one identity es ∙ select-first identity es keyed ∙ ap to_list there in
        let same = (=ₛ_iff e.id identity).0 (first-passes (by identity) es e there) in
        inl (
          rw (p, found, there)
            (ap (λ i. (ok ((i, pick kinds e.kinds) ∷ []), es)) same
              ∙ ap (λ l. (ok ((identity, l) ∷ []), es)) (pick-wanted kinds e.kinds)))
  ]

module _ {m : Mongo} (law : Documented m) (paths : Paths) (now : ℤ) (identity : String) (ds : Kinds)
    (es : Entries) (plain : all_plain (map (λ x. x.0) ds) ≡ true) where
  -- A pull after a push that succeeds, of kinds that are plain names (not empty, without a dot or NUL,
  -- and without a dollar at the start), of the identity that was pushed, where no two entries have the
  -- same id: it returns of each kind that it asks for, in the order of the question, the last datum
  -- that was pushed, or the one that was there before, if there is any. Nothing else can happen but a
  -- failure of the driver.
  pub push-pull :
      (k : Keys) (pub_key : Result k.PubKey) (u : Unit {0})
      → IsKeyed es
      → (push m paths k pub_key now identity ds es).0 ≡ ok u
      → (kinds : List String)
      → let es' = (push m paths k pub_key now identity ds es).1 in
        (pull m (identity ∷ []) kinds es' ≡ (
          ok ((identity, wanted (λ kind. latest kind ds (datum_at identity kind es)) kinds) ∷ []),
          es',
        ))
        ⊎ ((n : ℕ) × (pull m (identity ∷ []) kinds es' ≡ (err (driver n), es')))
  push-pull k pub_key u keyed h kinds =
      let after = push-result law paths now identity ds es plain k pub_key u h in
      let es' = result law paths now identity ds es plain in
      let (e, there) = result-present law paths now identity ds es plain in
      let data_after =
        wanted-same (λ kind. datum_at identity kind es')
          (λ kind. latest kind ds (datum_at identity kind es)) kinds
          (λ kind. mine law paths now identity ds es plain kind) in
      subst
        (λ x.
          (pull m (identity ∷ []) kinds x ≡ (
            ok ((identity, wanted (λ kind. latest kind ds (datum_at identity kind es)) kinds) ∷ []),
            x,
          ))
          ⊎ ((n : ℕ) × (pull m (identity ∷ []) kinds x ≡ (err (driver n), x))))
        (sym after)
        (subst
          (λ l.
            (pull m (identity ∷ []) kinds es' ≡ (ok ((identity, l) ∷ []), es'))
            ⊎ ((n : ℕ) × (pull m (identity ∷ []) kinds es' ≡ (err (driver n), es'))))
          data_after
          (pull-entry law identity kinds es' e
            (result-IsKeyed law paths now identity ds es plain keyed) there))
