-- ===== src/IdentityRepo/Publishing.antt =====
-- What a push requires and does.
use any_sync_coordinator.Prelude.{
  String, Bool, true, false, ◌≡◌, ◌≤◌, refl, ap, ◌∙◌, subst, inl, inr, Bool-cases, Option, none,
  some, Option-cases, [], ◌∷◌, ℤ, ◌=ₛ◌, =ₛ_iff, map, first, All, ltb, arith, if◌then◌else◌,
}
use any_sync_coordinator.Prelude.Assoc.{lookup, put, lookup-put}
use any_sync_coordinator.Outcome.{Result, ok, err, lift, >>=-reads}
use any_sync_coordinator.Time
use any_sync_coordinator.Mongo.{Mongo, Documented, upserted}
use any_sync_coordinator.Keys.{Keys}
use any_sync_coordinator.IdentityRepo.Keyed.{
  by, IsKeyed, append-same, append-other, replace-same, replace-other, append-IsKeyed,
  replace-IsKeyed,
}
use any_sync_coordinator.IdentityRepo.{
  Data, Kinds, Paths, all_plain, Entry, Entries, threshold_data_len, data_length, signature_result,
  validate_data, validate_request, set_all, with_kinds, upsert_kinds, push,
}

-- The kinds of an identity; a missing entry has none.
abbrev pub kinds_of : Option Entry → Kinds
kinds_of none = []
kinds_of (some e) = e.kinds

-- The datum that an identity has of a kind.
abbrev pub datum_at : String → String → Entries → Option Data
datum_at identity kind entries = lookup ◌=ₛ◌ kind (kinds_of (first (by identity) entries))

-- The last datum of a kind in a list, or another one.
abbrev pub latest : String → Kinds → Option Data → Option Data
latest kind [] d = d
latest kind ((x, d') ∷ ds) d = latest kind ds (if x =ₛ kind then some d' else d)

set_all-latest :
    (kind : String) (ds m : Kinds)
    → lookup ◌=ₛ◌ kind (set_all ds m) ≡ latest kind ds (lookup ◌=ₛ◌ kind m)
unfolding set_all
set_all-latest kind [] m = refl
set_all-latest kind ((x, d) ∷ ds) m =
    set_all-latest kind ds (put ◌=ₛ◌ x d m)
    ∙ ap (latest kind ds) (lookup-put ◌=ₛ◌ =ₛ_iff x kind d m)

module _ (k : Keys) (key : k.PubKey) where
  -- A datum that is short enough and signed by the key.
  abbrev pub IsSigned : String × Data → Type 0
  IsSigned x =
      (data_length x.1.payload ≤ threshold_data_len)
      × (k.verify key x.1.payload x.1.signature ≡ ok true)

  signed :
      (r : Result Bool) (rest : Result (Unit {0})) (u : Unit {0})
      → signature_result k r rest ≡ ok u
      → (r ≡ ok true) × (rest ≡ ok u)
  signed (ok true) rest u h = (refl, h)
  signed (ok false) rest u h = absurd (cc h)
  signed (err e) rest u h = absurd (cc h)

  validate_data-ok : (ds : Kinds) (u : Unit {0}) → validate_data k key ds ≡ ok u → All IsSigned ds
  unfolding validate_data
  validate_data-ok [] u h = tt
  validate_data-ok ((kind, d) ∷ ds) u h =
      elim (Bool-cases (ltb threshold_data_len (data_length d.payload))) [
        | inl p ↦ absurd (cc (rw p at h))
        | inr p ↦
            let (good, rest) =
              signed (k.verify key d.payload d.signature) (validate_data k key ds) u (rw p at h) in
            ((ground arith, good), validate_data-ok ds u rest)
      ]

module _ (k : Keys) where
  pub validated :
      (r : Result k.PubKey) (identity : String) (ds : Kinds) (u : Unit {0})
      → validate_request k r identity ds ≡ ok u
      → (key : k.PubKey) × (r ≡ ok key) × (k.account key ≡ identity) × All (IsSigned k key) ds
  unfolding validate_request
  validated (err e) identity ds u h = absurd (cc h)
  validated (ok key) identity ds u h = elim (Bool-cases (k.account key =ₛ identity)) [
    | inl p ↦
        (key, refl, (=ₛ_iff (k.account key) identity).0 p, validate_data-ok k key ds u (rw p at h))
    | inr p ↦ absurd (cc (rw p at h))
  ]

module _ {m : Mongo} (law : Documented m) (paths : Paths) (now : ℤ) (identity : String) (ds : Kinds)
    (es : Entries) (plain : all_plain (map (λ x. x.0) ds) ≡ true) where
  new_entry : Entry
  new_entry = record { id = identity; kinds = set_all ds []; updated = Time.stored now }

  upsert-ok :
      (u : Unit {0})
      → (upsert_kinds m paths now identity ds es).0 ≡ ok u
      → (upsert_kinds m paths now identity ds es).1
        ≡ upserted (by identity) (with_kinds now (set_all ds)) new_entry es (first (by identity) es)
  unfolding upsert_kinds new_entry
  upsert-ok u h = ground (
    arith,
    law.upsert_one_lem Entry (by identity) (with_kinds now (set_all ds))
        (record { id = identity; kinds = set_all ds []; updated = Time.stored now }) es,
  )

  pub result : Entries
  result =
      upserted (by identity) (with_kinds now (set_all ds)) new_entry es (first (by identity) es)

  pub result-IsKeyed : IsKeyed es → IsKeyed result
  unfolding result new_entry
  result-IsKeyed h = elim (Option-cases (first (by identity) es)) [
    | inl gone ↦ rw gone (append-IsKeyed es new_entry h gone)
    | inr (x, there) ↦
        rw there (replace-IsKeyed (with_kinds now (set_all ds)) (λ e. refl) (by identity) es h)
  ]

  -- The identity has an entry afterwards.
  pub result-present : (e : Entry) × (first (by identity) result ≡ some e)
  unfolding result new_entry
  result-present = elim (Option-cases (first (by identity) es)) [
    | inl gone ↦ (new_entry, rw gone (append-same new_entry es gone))
    | inr (x, there) ↦ (
      with_kinds now (set_all ds) x,
      rw there (replace-same (with_kinds now (set_all ds)) (λ e. refl) identity es x there),
    )
  ]

  pub mine :
      (kind : String) → datum_at identity kind result ≡ latest kind ds (datum_at identity kind es)
  unfolding result new_entry
  mine kind = elim (Option-cases (first (by identity) es)) [
    | inl gone ↦ rw gone (
        ap (λ o. lookup ◌=ₛ◌ kind (kinds_of o)) (append-same new_entry es gone)
        ∙ set_all-latest kind ds [])
    | inr (x, there) ↦ rw there (
        ap (λ o. lookup ◌=ₛ◌ kind (kinds_of o))
          (replace-same (with_kinds now (set_all ds)) (λ e. refl) identity es x there)
        ∙ set_all-latest kind ds x.kinds)
  ]

  others : (i : String) → (identity =ₛ i) ≡ false → first (by i) result ≡ first (by i) es
  unfolding result new_entry
  others i n = elim (Option-cases (first (by identity) es)) [
    | inl gone ↦ rw gone (append-other i new_entry es n)
    | inr (x, there) ↦
        rw there (replace-other (with_kinds now (set_all ds)) (λ e. refl) identity i es n)
  ]

  pub result-at :
      (i kind : String)
      → datum_at i kind result
        ≡ (if identity =ₛ i then latest kind ds (datum_at identity kind es) else datum_at i kind es)
  result-at i kind = elim (Bool-cases (identity =ₛ i)) [
    | inl p ↦ rw p (
        subst (λ x. datum_at x kind result ≡ latest kind ds (datum_at identity kind es))
          ((=ₛ_iff identity i).0 p) (mine kind))
    | inr p ↦ rw p (ap (λ o. lookup ◌=ₛ◌ kind (kinds_of o)) (others i p))
  ]

  -- The entries after a push that succeeds.
  pub push-result :
      (k : Keys) (pub_key : Result k.PubKey) (u : Unit {0})
      → (push m paths k pub_key now identity ds es).0 ≡ ok u
      → (push m paths k pub_key now identity ds es).1 ≡ result
  unfolding push lift result
  push-result k pub_key u h =
      let (v, p, step, h') = >>=-reads _ _ es u refl h in ap (λ r. r.1) step ∙ upsert-ok u h'

  -- A push that succeeds, of kinds that are plain names (not empty, without a dot or NUL, and without
  -- a dollar at the start): the caller's account is the identity, and the caller's key has signed every
  -- datum, none of which is too long. Afterwards the identity has of every kind the last datum of
  -- the request, or the one that it had if there is none, and every other identity has what it had.
  pub push-ok :
      (k : Keys) (pub_key : Result k.PubKey) (u : Unit {0})
      → (push m paths k pub_key now identity ds es).0 ≡ ok u
      → (i kind : String)
      → (key : k.PubKey) × (pub_key ≡ ok key)
        × (k.account key ≡ identity)
        × All (IsSigned k key) ds
        × (datum_at i kind (push m paths k pub_key now identity ds es).1 ≡ (
            if identity =ₛ i
            then latest kind ds (datum_at identity kind es)
            else datum_at i kind es))
  unfolding push lift result
  push-ok k pub_key u h i kind =
      let (v, p, step, h') = >>=-reads _ _ es u refl h in
      let (key, known, own, signed) = validated k pub_key identity ds v p in
      (
        key,
        known,
        own,
        signed,
        ap (λ r. datum_at i kind r.1) step
            ∙ (ap (datum_at i kind) (upsert-ok u h') ∙ result-at i kind),
      )
