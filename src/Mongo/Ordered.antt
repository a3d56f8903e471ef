-- ===== src/Mongo/Ordered.antt =====
-- Collections in the order of their ids: what sorting and a query by `$gt` make of them, and
-- what a page that fetches one document more finds.
use any_sync_coordinator.Prelude.{
  ℕ, zero, suc, ◌+◌, ◌-◌, ◌<◌, ◌≤◌, Bool, true, false, ◌&&◌, ◌≡◌, ◌⊎◌, leb, length-take-le, refl,
  ap, ◌∙◌, List, [], ◌∷◌, ◌++◌, All, All-select, Bool-cases, inl, inr, select, take, length, ltb,
  ◌==◌, arith, if◌then◌else◌,
}
use any_sync_coordinator.Docs.{ObjectId}
use any_sync_coordinator.Mongo.{sorted_insert, sort_by}

module _ {A : Type 0} (key : A → ObjectId) where
  abbrev pub After : A → A → Type 0
  After a b = key a < key b

  -- The ids grow along the list.
  abbrev pub IsOrdered : List A → Type 0
  IsOrdered [] = Unit
  IsOrdered (a ∷ l) = All (After a) l × IsOrdered l

  insert_least : (a : A) (l : List A) → All (After a) l → sorted_insert key a l ≡ a ∷ l
  insert_least a [] h = refl
  insert_least a (b ∷ l) h = ground arith

  pub sort_ordered : (l : List A) → IsOrdered l → sort_by key l ≡ l
  sort_ordered [] h = refl
  sort_ordered (a ∷ l) h = ap (sorted_insert key a) (sort_ordered l h.1) ∙ insert_least a l h.0

  -- What passes another test as well, of the documents with a greater id than r.
  abbrev pub later : (A → Bool) → A → A → Bool
  later q r a = q a && ltb (key r) (key a)

  select-later :
      (q : A → Bool) (r : A) (l : List A) → All (After r) l → select (later q r) l ≡ select q l
  select-later q r [] h = refl
  select-later q r (a ∷ l) h = ground (arith, select-later q r l h.1)

  All-mid : (P : A → Type 0) (xs : List A) (r : A) (ys : List A) → All P (xs ++ r ∷ ys) → P r
  All-mid P [] r ys h = h.0
  All-mid P (x ∷ xs) r ys h = All-mid P xs r ys h.1

  pub select_after :
      (q : A → Bool) (xs : List A) (r : A) (ys : List A)
      → IsOrdered (xs ++ r ∷ ys)
      → select (later q r) (xs ++ r ∷ ys) ≡ select q ys
  select_after q [] r ys h = ground (arith, select-later q r ys h.0)
  select_after q (x ∷ xs) r ys h =
      ground (arith, All-mid (After x) xs r ys h.0, select_after q xs r ys h.1)

  pub IsOrdered-select : (q : A → Bool) (l : List A) → IsOrdered l → IsOrdered (select q l)
  IsOrdered-select q [] h = tt
  IsOrdered-select q (a ∷ l) h = elim (Bool-cases (q a)) [
    | inl p ↦ rw p (All-select (After a) q l h.0, IsOrdered-select q l h.1)
    | inr p ↦ rw p (IsOrdered-select q l h.1)
  ]

module _ {A : Type 0} where
  pub take_short : (n : ℕ) (l : List A) → length l ≤ n → take n l ≡ l
  take_short zero [] h = refl
  take_short zero (a ∷ l) h = absurd (omega arith)
  take_short (suc n) [] h = refl
  take_short (suc n) (a ∷ l) h = ap (λ t. a ∷ t) (take_short n l (omega arith))

  length_long : (n : ℕ) (l : List A) → n ≤ length l → length (take n l) ≡ n
  length_long zero l h = refl
  length_long (suc n) [] h = absurd (omega arith)
  length_long (suc n) (a ∷ l) h = ap suc (length_long n l (omega arith))

  take-take : (n : ℕ) (l : List A) → take n (take (suc n) l) ≡ take n l
  take-take zero l = refl
  take-take (suc n) [] = refl
  take-take (suc n) (a ∷ l) = ap (λ t. a ∷ t) (take-take n l)

  -- What both logs make of the documents that they fetch.
  abbrev pub page_of : ℕ → List A → List A × Bool
  page_of limit l = if length l == limit then (take (length l - 1) l, true) else (l, false)

  -- Fetching one document more and cutting it off: the first n documents, and whether there are
  -- more than those.
  pub fetched_page :
      (n : ℕ) (l : List A) → page_of (n + 1) (take (n + 1) l) ≡ (take n l, ltb n (length l))
  fetched_page n l = elim (Bool-cases (ltb n (length l))) [
    | inl p ↦ ground (arith, length_long (n + 1) l (ground arith), take-take n l)
    | inr p ↦ ground (arith, take_short (n + 1) l (ground arith), take_short n l (ground arith))
  ]

  -- The same where the comparison is by a greater length.
  pub fetched_more :
      (n : ℕ) (l : List A)
      → (let found = take (n + 1) l in
          if ltb n (length found) then (take (length found - 1) found) else found)
        ≡ take n l
  fetched_more n l = elim (Bool-cases (ltb n (length l))) [
    | inl p ↦ ground (arith, length_long (n + 1) l (ground arith), take-take n l)
    | inr p ↦ ground (arith, take_short (n + 1) l (ground arith), take_short n l (ground arith))
  ]

  pub fetched_has_more : (n : ℕ) (l : List A) → ltb n (length (take (n + 1) l)) ≡ ltb n (length l)
  fetched_has_more n l = elim (Bool-cases (ltb n (length l))) [
    | inl p ↦ ground (arith, length_long (n + 1) l (ground arith))
    | inr p ↦ ground (arith, take_short (n + 1) l (ground arith))
  ]

  take_of_take : (j n : ℕ) (l : List A) → j ≤ n → take j (take n l) ≡ take j l
  take_of_take zero n l h = refl
  take_of_take (suc j) zero l h = absurd (omega arith)
  take_of_take (suc j) (suc n) [] h = refl
  take_of_take (suc j) (suc n) (a ∷ l) h = ap (λ t. a ∷ t) (take_of_take j n l (omega arith))

  take_whole : (j n : ℕ) (l : List A) → n ≤ j → take j (take n l) ≡ take n l
  take_whole j zero l h = take_short j [] (omega arith)
  take_whole zero (suc n) l h = absurd (omega arith)
  take_whole (suc j) (suc n) [] h = refl
  take_whole (suc j) (suc n) (a ∷ l) h = ap (λ t. a ∷ t) (take_whole j n l (omega arith))

  -- Where only the first of the fetched documents arrive, it is a page, or fewer with no more behind
  -- them.
  pub fetched_cut :
      (j n : ℕ) (l : List A)
      → (page_of (n + 1) (take j (take (n + 1) l)) ≡ (take n l, ltb n (length l)))
        ⊎ ((j ≤ n) × (page_of (n + 1) (take j (take (n + 1) l)) ≡ (take j l, false)))
  fetched_cut j n l = elim (Bool-cases (leb j n)) [
    | inl p ↦
        let h : j ≤ n = ground (arith, p) in
        inr (
          h,
          rw (take_of_take j (n + 1) l (omega (arith, h))) (ground (arith, h, length-take-le j l)),
        )
    | inr p ↦
        let h : n + 1 ≤ j = ground (arith, p) in
        inl (rw (take_whole j (n + 1) l h) (fetched_page n l))
  ]
