-- ===== src/SpaceStatus/Keyed.antt =====
-- The collection `spaces` as a map from space ids to documents.
use any_sync_coordinator.Prelude.{
  String, Bool, true, false, ◌≡◌, ◌=ₛ◌, =ₛ_iff, =ₛ_refl, Option, none, some, List, [], ◌∷◌, ◌++◌,
  All, All-first, All-append, refl, first, replace_first, arith, if◌then◌else◌, Bool-cases, inl,
  inr,
}
use any_sync_coordinator.Docs.{SpaceDoc}
use any_sync_coordinator.SpaceStatus.{StatusChange, modify_status_op}

-- The document of a space.
abbrev pub space_at : String → List SpaceDoc → Option SpaceDoc
space_at i = first (λ d. d.space_id =ₛ i)

abbrev pub DiffersFrom : String → SpaceDoc → Type 0
DiffersFrom i d = (d.space_id =ₛ i) ≡ false

-- No two documents have the same `_id`.
abbrev pub IsKeyed : List SpaceDoc → Type 0
IsKeyed [] = Unit
IsKeyed (d ∷ ds) = All (DiffersFrom d.space_id) ds × IsKeyed ds

pub op-space_id :
    {PubKey : Type 0} (c : StatusChange PubKey) (d : SpaceDoc)
    → (modify_status_op c d).space_id ≡ d.space_id
unfolding modify_status_op
op-space_id c d = ground arith

same_id : (a b j : String) → (a =ₛ b) ≡ false → (a =ₛ j) ≡ true → (b =ₛ j) ≡ false
same_id a b j h p = elim (Bool-cases (b =ₛ j)) [
  | inr r ↦ r
  | inl r ↦ absurd (cc (h, (=ₛ_iff b j).0 r))
]

module _ (f : SpaceDoc → SpaceDoc) (keeps : (d : SpaceDoc) → (f d).space_id ≡ d.space_id) where
  replace-DiffersFrom :
      (i : String) (q : SpaceDoc → Bool) (ds : List SpaceDoc)
      → All (DiffersFrom i) ds
      → All (DiffersFrom i) (replace_first q f ds)
  replace-DiffersFrom i q [] h = h
  replace-DiffersFrom i q (d ∷ ds) h = elim (Bool-cases (q d)) [
    | inl p ↦ rw p (ground (arith, keeps d))
    | inr p ↦ rw p (h.0, replace-DiffersFrom i q ds h.1)
  ]

  -- An update that keeps the ids keeps them distinct.
  pub replace-IsKeyed :
      (q : SpaceDoc → Bool) (ds : List SpaceDoc) → IsKeyed ds → IsKeyed (replace_first q f ds)
  replace-IsKeyed q [] h = h
  replace-IsKeyed q (d ∷ ds) h = elim (Bool-cases (q d)) [
    | inl p ↦ rw (p, keeps d) h
    | inr p ↦ rw p (replace-DiffersFrom d.space_id q ds h.0, replace-IsKeyed q ds h.1)
  ]

  -- Where ids are distinct, an update of the first match changes the entry of that document.
  pub space_at-replace :
      (j : String) (q : SpaceDoc → Bool) (ds : List SpaceDoc) (d : SpaceDoc)
      → IsKeyed ds
      → first q ds ≡ some d
      → space_at j (replace_first q f ds) ≡ (if d.space_id =ₛ j then some (f d) else space_at j ds)
  space_at-replace j q [] d h e = absurd (ground arith)
  space_at-replace j q (x ∷ ds) d h e = elim (Bool-cases (q x)) [
    | inl p ↦ let e' : x ≡ d = ground arith in ground (arith, keeps x)
    | inr p ↦
        let e' : first q ds ≡ some d = ground arith in
        let differs = All-first (DiffersFrom x.space_id) q ds d h.0 e' in
        ground (arith, space_at-replace j q ds d h.1 e', same_id d.space_id x.space_id j differs)
  ]

absent : (i : String) (ds : List SpaceDoc) → All (DiffersFrom i) ds → space_at i ds ≡ none
absent i [] h = refl
absent i (d ∷ ds) h = rw h.0 (absent i ds h.1)

unmatched : (i : String) (ds : List SpaceDoc) → space_at i ds ≡ none → All (DiffersFrom i) ds
unmatched i [] h = tt
unmatched i (d ∷ ds) h = elim (Bool-cases (d.space_id =ₛ i)) [
  | inl p ↦ absurd (ground arith)
  | inr p ↦ (p, unmatched i ds (rw p at h))
]

pub DiffersFrom-sym : (i : String) (d : SpaceDoc) → DiffersFrom i d → (i =ₛ d.space_id) ≡ false
DiffersFrom-sym i d h = elim (Bool-cases (i =ₛ d.space_id)) [
  | inr r ↦ r
  | inl r ↦ absurd (cc (h, =ₛ_refl i, (=ₛ_iff i d.space_id).0 r))
]

-- A document with a new id keeps the ids distinct.
pub append-IsKeyed :
    (ds : List SpaceDoc) (d : SpaceDoc)
    → IsKeyed ds
    → space_at d.space_id ds ≡ none
    → IsKeyed (ds ++ d ∷ [])
append-IsKeyed [] d h e = (tt, tt)
append-IsKeyed (x ∷ ds) d h e =
    let others = unmatched d.space_id (x ∷ ds) e in
    (
      All-append (DiffersFrom x.space_id) ds (d ∷ []) h.0
          (DiffersFrom-sym d.space_id x others.0, tt),
      append-IsKeyed ds d h.1 (absent d.space_id ds others.1),
    )

-- Where the id is new, the added document is found under its id, and nothing else changes.
pub space_at-append :
    (j : String) (ds : List SpaceDoc) (d : SpaceDoc)
    → space_at d.space_id ds ≡ none
    → space_at j (ds ++ d ∷ []) ≡ (if d.space_id =ₛ j then some d else space_at j ds)
space_at-append j [] d e = refl
space_at-append j (x ∷ ds) d e = elim (Bool-cases (x.space_id =ₛ d.space_id)) [
  | inl p ↦ absurd (ground arith)
  | inr p ↦ ground (
    arith,
    space_at-append j ds d (rw p at e),
    same_id d.space_id x.space_id j,
    DiffersFrom-sym d.space_id x p,
  )
]

replace_same : (q : SpaceDoc → Bool) (ds : List SpaceDoc) → replace_first q (λ d. d) ds ≡ ds
replace_same q [] = refl
replace_same q (d ∷ ds) = ground (arith, replace_same q ds)

-- Where ids are distinct, the first match of any query is the document of its id.
pub space_at_of_first :
    (q : SpaceDoc → Bool) (ds : List SpaceDoc) (d : SpaceDoc)
    → IsKeyed ds
    → first q ds ≡ some d
    → space_at d.space_id ds ≡ some d
space_at_of_first q ds d h e = ground (
  arith,
  replace_same q ds,
  =ₛ_refl d.space_id,
  space_at-replace (λ x. x) (λ x. refl) d.space_id q ds d h e,
)
