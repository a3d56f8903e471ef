-- ===== src/Paged/Splitting.antt =====
-- Where an entry of a list that was mapped or filtered stands in the list itself.
use any_sync_coordinator.Prelude.{
  ℕ, zero, suc, Bool, ◌≡◌, refl, ap, inl, inr, List, [], ◌∷◌, ◌++◌, map, length, take, select,
  Bool-cases,
}

module _ {A B : Type 0} (f : A → B) where
  pub map-take : (n : ℕ) (l : List A) → take n (map f l) ≡ map f (take n l)
  map-take zero l = refl
  map-take (suc n) [] = refl
  map-take (suc n) (a ∷ l) = ap (λ t. f a ∷ t) (map-take n l)

  pub length-map : (l : List A) → length (map f l) ≡ length l
  length-map [] = refl
  length-map (a ∷ l) = ap suc (length-map l)

  pub record Preimage (l : List A) (xs : List B) (b : B) (ys : List B) : Type 0 where
    pub before : List A
    pub entry : A
    pub after : List A
    pub whole : l ≡ before ++ entry ∷ after
    pub same_entry : f entry ≡ b
    pub same_after : map f after ≡ ys

  pub map-split :
      (l : List A) (xs : List B) (b : B) (ys : List B) → map f l ≡ xs ++ b ∷ ys → Preimage l xs b ys
  map-split [] [] b ys h = absurd (cc h)
  map-split [] (x ∷ xs) b ys h = absurd (cc h)
  map-split (a ∷ l) [] b ys h = record {
    before = [];
    entry = a;
    after = l;
    whole = refl;
    same_entry = cc h;
    same_after = cc h;
  }
  map-split (a ∷ l) (x ∷ xs) b ys h =
      let p = map-split l xs b ys (cc h) in
      record {
        before = a ∷ p.before;
        entry = p.entry;
        after = p.after;
        whole = ap (λ t. a ∷ t) p.whole;
        same_entry = p.same_entry;
        same_after = p.same_after;
      }

module _ {A : Type 0} (q : A → Bool) where
  pub record Selected (l xs : List A) (b : A) (ys : List A) : Type 0 where
    pub before : List A
    pub after : List A
    pub whole : l ≡ before ++ b ∷ after
    pub same_after : select q after ≡ ys

  further :
      (a : A) (l xs : List A) (b : A) (ys : List A) → Selected l xs b ys → Selected (a ∷ l) xs b ys
  further a l xs b ys p = record {
    before = a ∷ p.before;
    after = p.after;
    whole = ap (λ t. a ∷ t) p.whole;
    same_after = p.same_after;
  }

  pub select-split :
      (l xs : List A) (b : A) (ys : List A) → select q l ≡ xs ++ b ∷ ys → Selected l xs b ys
  select-split [] [] b ys h = absurd (cc h)
  select-split [] (x ∷ xs) b ys h = absurd (cc h)
  select-split (a ∷ l) [] b ys h = elim (Bool-cases (q a)) [
    | inl p ↦
        let h' : a ∷ select q l ≡ b ∷ ys = rw p at h in
        record { before = []; after = l; whole = ap (λ x. x ∷ l) (cc h'); same_after = cc h' }
    | inr p ↦ further a l [] b ys (select-split l [] b ys (rw p at h))
  ]
  select-split (a ∷ l) (x ∷ xs) b ys h = elim (Bool-cases (q a)) [
    | inl p ↦
        let h' : a ∷ select q l ≡ x ∷ (xs ++ b ∷ ys) = rw p at h in
        let r = select-split l xs b ys (cc h') in
        record {
          before = a ∷ r.before;
          after = r.after;
          whole = ap (λ t. a ∷ t) r.whole;
          same_after = r.same_after;
        }
    | inr p ↦ (let r = select-split l (x ∷ xs) b ys (rw p at h) in further a l (x ∷ xs) b ys r)
  ]
