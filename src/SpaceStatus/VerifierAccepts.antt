-- ===== src/SpaceStatus/VerifierAccepts.antt =====
-- What a space header that is accepted has passed.
use any_sync_coordinator.Prelude.{
  ℕ, Bool, true, false, ◌||◌, ◌≡◌, ◌⊎◌, inl, inr, refl, ◌=ₛ◌, Bool-cases, List, [], ◌∷◌, arith,
  if◌then◌else◌,
}
use any_sync_coordinator.Outcome.{Result, ok, err}
use any_sync_coordinator.Docs.{Bytes}
use any_sync_coordinator.Keys.{Keys}
use any_sync_coordinator.SpaceStatus.Verifier.{
  Payloads, RawSpaceHeader, SpaceHeader, OneToOneInfo, ◌then_try◌, matched, verify_header_signature,
  verify_writers, verify_header_signature_one_to_one, verify_space_header, header_space_type,
}

then_try-ok :
    {A B : Type 0} (r : Result A) (f : A → Result B) (b : B)
    → (r then_try f) ≡ ok b
    → (a : A) × (r ≡ ok a) × (f a ≡ ok b)
then_try-ok (ok a) f b h = (a, refl, h)
then_try-ok (err e) f b h = absurd (cc h)

module _ (k : Keys) (p : Payloads k.PubKey) (identity : k.PubKey) where
  matched-ok : (b : Bool) (u : Unit {0}) → matched k p b ≡ ok u → b ≡ true
  matched-ok true u h = refl
  matched-ok false u h = absurd (cc h)

  -- Two writers, one of whom is the identity.
  abbrev pub IsWriter : List Bytes → Type 0
  IsWriter writers =
      (a : Bytes) × (b : Bytes) × (writer0 : k.PubKey) × (writer1 : k.PubKey) × (writers
        ≡ a ∷ b ∷ [])
      × (k.unmarshal_public_key a ≡ ok writer0)
      × (k.unmarshal_public_key b ≡ ok writer1)
      × ((k.equals identity writer0 || k.equals identity writer1) ≡ true)

  verify_writers-ok :
      (writers : List Bytes) (u : Unit {0})
      → verify_writers k p identity writers ≡ ok u
      → IsWriter writers
  unfolding verify_writers
  verify_writers-ok [] u h = absurd (cc h)
  verify_writers-ok (a ∷ []) u h = absurd (cc h)
  verify_writers-ok (a ∷ b ∷ []) u h =
      let (writer0, e0, h0) = then_try-ok (k.unmarshal_public_key a) _ u h in
      let (writer1, e1, h1) = then_try-ok (k.unmarshal_public_key b) _ u h0 in
      (a, b, writer0, writer1, refl, e0, e1, ground arith)
  verify_writers-ok (a ∷ b ∷ c ∷ l) u h = absurd (cc h)

  -- A one-to-one header is signed by the owner that it names, and the identity is one of its
  -- two writers.
  abbrev pub IsOneToOne : RawSpaceHeader → SpaceHeader → Type 0
  IsOneToOne raw header =
      (info : OneToOneInfo) × (owner : k.PubKey) × (p.unmarshal_one_to_one
          header.space_header_payload
        ≡ ok info)
      × (k.unmarshal_public_key info.owner ≡ ok owner)
      × (k.verify owner raw.space_header raw.signature ≡ ok true)
      × IsWriter info.writers

  one_to_one-ok :
      (raw : RawSpaceHeader) (header : SpaceHeader) (u : Unit {0})
      → p.unmarshal_header raw.space_header ≡ ok header
      → verify_header_signature_one_to_one k p identity raw ≡ ok u
      → IsOneToOne raw header
  unfolding verify_header_signature_one_to_one
  one_to_one-ok raw header u e h =
      let (info, i0, h1) =
        then_try-ok (p.unmarshal_one_to_one header.space_header_payload) _ u (rw e at h) in
      let (owner, i1, h2) = then_try-ok (k.unmarshal_public_key info.owner) _ u h1 in
      let (good, i2, h3) = then_try-ok (k.verify owner raw.space_header raw.signature) _ u h2 in
      let (v, i3, h4) = then_try-ok (matched k p good) _ u h3 in
      (info, owner, i0, i1, rw (matched-ok good v i3) at i2, verify_writers-ok info.writers u h4)

  -- What an accepted header has passed.
  abbrev pub Verified : Bytes → ℕ → Type 0
  Verified header_bytes t =
      (raw : RawSpaceHeader) × (header : SpaceHeader) × (p.unmarshal_raw_header header_bytes
        ≡ ok raw)
      × (p.unmarshal_header raw.space_header ≡ ok header)
      × (header_space_type header ≡ ok t)
      × ((((header.space_type =ₛ "anytype.onetoone") ≡ false)
            × (k.verify identity raw.space_header raw.signature ≡ ok true))
          ⊎ (((header.space_type =ₛ "anytype.onetoone") ≡ true) × IsOneToOne raw header))

  signature :
      (raw : RawSpaceHeader) (header : SpaceHeader) (u : Unit {0})
      → p.unmarshal_header raw.space_header ≡ ok header
      → (if header.space_type =ₛ "anytype.onetoone"
          then verify_header_signature_one_to_one k p identity raw
          else verify_header_signature k p identity raw)
        ≡ ok u
      → (((header.space_type =ₛ "anytype.onetoone") ≡ false)
          × (k.verify identity raw.space_header raw.signature ≡ ok true))
        ⊎ (((header.space_type =ₛ "anytype.onetoone") ≡ true) × IsOneToOne raw header)
  unfolding verify_header_signature
  signature raw header u e h = elim (Bool-cases (header.space_type =ₛ "anytype.onetoone")) [
    | inl q ↦ inr (q, one_to_one-ok raw header u e (rw q at h))
    | inr q ↦
        let (good, i, h') =
          then_try-ok (k.verify identity raw.space_header raw.signature) _ u (rw q at h) in
        inl (q, rw (matched-ok good u h') at i)
  ]

  -- A header that is accepted as one of a type was decoded, and its type is the one that its name
  -- and its timestamp stand for. If it is one-to-one, the owner that it names has signed it and the
  -- identity is one of its exactly two writers. If not, the identity has signed it.
  pub verify_space_header-Verified :
      (header_bytes : Bytes) (t : ℕ)
      → verify_space_header k p identity header_bytes ≡ ok t
      → Verified header_bytes t
  unfolding verify_space_header
  verify_space_header-Verified header_bytes t h =
      let (raw, e0, h0) = then_try-ok (p.unmarshal_raw_header header_bytes) _ t h in
      let (header, e1, h1) = then_try-ok (p.unmarshal_header raw.space_header) _ t h0 in
      let (u, e2, h2) = then_try-ok _ (λ u. header_space_type header) t h1 in
      (raw, header, e0, e1, h2, signature raw header u e1 e2)
