-- ===== src/IdentityRepo/Keyed.antt =====
-- The entries of the identity repository as a map from identities to entries.
use any_sync_coordinator.Prelude.{
  String, Bool, true, false, ◌≡◌, refl, ap, inl, inr, Bool-cases, Option, none, some, [], ◌∷◌, ◌++◌,
  ◌=ₛ◌, =ₛ_iff, =ₛ_refl, All, All-append, first, select, replace_first, drop_first, arith,
  if◌then◌else◌,
}
use any_sync_coordinator.IdentityRepo.{Entry, Entries}

abbrev pub by : String → Entry → Bool
by identity e = e.id =ₛ identity

abbrev Differs : String → Entry → Type 0
Differs i e = (e.id =ₛ i) ≡ false

-- No two entries have the same `_id`.
abbrev pub IsKeyed : Entries → Type 0
IsKeyed [] = Unit
IsKeyed (e ∷ es) = All (Differs e.id) es × IsKeyed es

abbrev pub to_list : Option Entry → Entries
to_list none = []
to_list (some e) = e ∷ []

select_absent : (i : String) (es : Entries) → All (Differs i) es → select (by i) es ≡ []
select_absent i [] h = refl
select_absent i (e ∷ es) h = rw h.0 (select_absent i es h.1)

pub first_absent : (i : String) (es : Entries) → All (Differs i) es → first (by i) es ≡ none
first_absent i [] h = refl
first_absent i (e ∷ es) h = rw h.0 (first_absent i es h.1)

renamed : (i j : String) (es : Entries) → (i =ₛ j) ≡ true → All (Differs i) es → All (Differs j) es
renamed i j es e h = let same : i ≡ j = (=ₛ_iff i j).0 e in rw (← same) h

-- At most one entry has the id.
pub select-first :
    (i : String) (es : Entries) → IsKeyed es → select (by i) es ≡ to_list (first (by i) es)
select-first i [] h = refl
select-first i (e ∷ es) h = elim (Bool-cases (e.id =ₛ i)) [
  | inl p ↦ rw p (ap (λ l. e ∷ l) (select_absent i es (renamed e.id i es p h.0)))
  | inr p ↦ rw p (select-first i es h.1)
]

unmatched : (i : String) (es : Entries) → first (by i) es ≡ none → All (Differs i) es
unmatched i [] h = tt
unmatched i (e ∷ es) h = elim (Bool-cases (e.id =ₛ i)) [
  | inl p ↦ absurd (cc (rw p at h))
  | inr p ↦ (p, unmatched i es (rw p at h))
]

flipped : (i j : String) → (i =ₛ j) ≡ false → (j =ₛ i) ≡ false
flipped i j h = elim (Bool-cases (j =ₛ i)) [
  | inr r ↦ r
  | inl r ↦ absurd (cc (h, =ₛ_refl i, (=ₛ_iff j i).0 r))
]

pub append-IsKeyed :
    (es : Entries) (e : Entry) → IsKeyed es → first (by e.id) es ≡ none → IsKeyed (es ++ e ∷ [])
append-IsKeyed [] e h gone = (tt, tt)
append-IsKeyed (x ∷ es) e h gone =
    let others = unmatched e.id (x ∷ es) gone in
    (
      All-append (Differs x.id) es (e ∷ []) h.0 (flipped x.id e.id others.0, tt),
      append-IsKeyed es e h.1 (first_absent e.id es others.1),
    )

module _ (f : Entry → Entry) (keeps : (e : Entry) → (f e).id ≡ e.id) where
  replace-Differs :
      (i : String) (q : Entry → Bool) (es : Entries)
      → All (Differs i) es
      → All (Differs i) (replace_first q f es)
  replace-Differs i q [] h = h
  replace-Differs i q (e ∷ es) h = elim (Bool-cases (q e)) [
    | inl p ↦ rw p (ground (arith, keeps e))
    | inr p ↦ rw p (h.0, replace-Differs i q es h.1)
  ]

  pub replace-IsKeyed :
      (q : Entry → Bool) (es : Entries) → IsKeyed es → IsKeyed (replace_first q f es)
  replace-IsKeyed q [] h = h
  replace-IsKeyed q (e ∷ es) h = elim (Bool-cases (q e)) [
    | inl p ↦ rw (p, keeps e) h
    | inr p ↦ rw p (replace-Differs e.id q es h.0, replace-IsKeyed q es h.1)
  ]

some_same : {a b : Entry} → some a ≡ some b → a ≡ b
some_same h = cc h

pub append-other :
    (i : String) (e : Entry) (es : Entries)
    → (e.id =ₛ i) ≡ false
    → first (by i) (es ++ e ∷ []) ≡ first (by i) es
append-other i e [] h = rw h refl
append-other i e (x ∷ es) h = ground (arith, append-other i e es h)

pub append-same :
    (e : Entry) (es : Entries) → first (by e.id) es ≡ none → first (by e.id) (es ++ e ∷ []) ≡ some e
append-same e [] h = rw (=ₛ_refl e.id) refl
append-same e (x ∷ es) h = ground (arith, append-same e es)

module _ (f : Entry → Entry) (keeps : (e : Entry) → (f e).id ≡ e.id) where
  pub replace-same :
      (i : String) (es : Entries) (x : Entry)
      → first (by i) es ≡ some x
      → first (by i) (replace_first (by i) f es) ≡ some (f x)
  replace-same i [] x h = absurd (cc h)
  replace-same i (y ∷ es) x h = elim (Bool-cases (y.id =ₛ i)) [
    | inl p ↦ let same : y ≡ x = some_same (rw p at h) in ground (arith, p, keeps y, ap f same)
    | inr p ↦ rw p (rw p (replace-same i es x (rw p at h)))
  ]

  pub replace-other :
      (i i' : String) (es : Entries)
      → (i =ₛ i') ≡ false
      → first (by i') (replace_first (by i) f es) ≡ first (by i') es
  replace-other i i' [] h = refl
  replace-other i i' (y ∷ es) h =
      ground (arith, replace-other i i' es h, =ₛ_iff y.id i, =ₛ_iff y.id i', keeps y)

-- The entry that is dropped is the only one with its id.
pub first-drop :
    (i j : String) (es : Entries)
    → IsKeyed es
    → first (by j) (drop_first (by i) es) ≡ (if i =ₛ j then none else first (by j) es)
first-drop i j [] h = ground arith
first-drop i j (e ∷ es) h = elim (Bool-cases (e.id =ₛ i)) [
  | inl p ↦ elim (Bool-cases (i =ₛ j)) [
    | inl q ↦
        rw (p, q)
          (first_absent j es
            (renamed e.id j es (ground (arith, =ₛ_iff e.id i, =ₛ_iff i j, =ₛ_iff e.id j)) h.0))
    | inr q ↦ ground (arith, p, q, =ₛ_iff e.id i, =ₛ_iff e.id j, =ₛ_iff i j)
  ]
  | inr p ↦ ground (arith, p, first-drop i j es h.1, =ₛ_iff e.id i, =ₛ_iff e.id j, =ₛ_iff i j)
]
