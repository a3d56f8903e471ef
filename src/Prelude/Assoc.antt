-- ===== src/Prelude/Assoc.antt =====
-- Go maps as association lists. Putting a key drops what it had before, so a key has one value.
use mathlib.Core.Path.{◌≡◌, subst}
use mathlib.Core.Logic.{◌↔◌, inl, inr}
use mathlib.Core.Bool.{Bool, true, false}
use mathlib.Core.Option.{Option, none, some}
use mathlib.Core.List.{List, [], ◌∷◌}
use native.Mathlib.Omega.{arith}
use any_sync_coordinator.Prelude.Tests.{Bool-cases, if◌then◌else◌}
use any_sync_coordinator.Prelude.Lists.{All}

module _ {K V : Type 0} (same : K → K → Bool) where
  abbrev pub lookup : K → List (K × V) → Option V
  lookup k [] = none
  lookup k ((x, v) ∷ m) = if same x k then some v else lookup k m

  abbrev pub remove : K → List (K × V) → List (K × V)
  remove k [] = []
  remove k ((x, v) ∷ m) = let rest = remove k m in if same x k then rest else (x, v) ∷ rest

  abbrev pub put : K → V → List (K × V) → List (K × V)
  put k v m = (k, v) ∷ remove k m

  -- Each key stands once.
  abbrev pub IsMap : List (K × V) → Type 0
  IsMap [] = Unit
  IsMap ((k, v) ∷ m) = All (λ x. same x.0 k ≡ false) m × IsMap m

  pub All-remove : (P : K × V → Type 0) (k : K) (m : List (K × V)) → All P m → All P (remove k m)
  All-remove P k [] h = tt
  All-remove P k ((x, v) ∷ m) h = elim (Bool-cases (same x k)) [
    | inl p ↦ rw p (All-remove P k m h.1)
    | inr p ↦ rw p (h.0, All-remove P k m h.1)
  ]

  remove-absent : (k : K) (m : List (K × V)) → All (λ x. same x.0 k ≡ false) (remove k m)
  remove-absent k [] = tt
  remove-absent k ((x, v) ∷ m) = elim (Bool-cases (same x k)) [
    | inl p ↦ rw p (remove-absent k m)
    | inr p ↦ rw p (p, remove-absent k m)
  ]

  pub IsMap-remove : (k : K) (m : List (K × V)) → IsMap m → IsMap (remove k m)
  IsMap-remove k [] h = tt
  IsMap-remove k ((x, v) ∷ m) h = elim (Bool-cases (same x k)) [
    | inl p ↦ rw p (IsMap-remove k m h.1)
    | inr p ↦ rw p (All-remove (λ y. same y.0 x ≡ false) k m h.0, IsMap-remove k m h.1)
  ]

  pub IsMap-put : (k : K) (v : V) (m : List (K × V)) → IsMap m → IsMap (put k v m)
  IsMap-put k v m h = (remove-absent k m, IsMap-remove k m h)

  -- What holds of every value holds of one that is found.
  pub All-lookup :
      (P : V → Type 0) (k : K) (m : List (K × V)) (v : V)
      → All (λ x. P x.1) m
      → lookup k m ≡ some v
      → P v
  All-lookup P k [] v h e = absurd (cc e)
  All-lookup P k ((x, u) ∷ m) v h e = elim (Bool-cases (same x k)) [
    | inl p ↦ (let e' : some u ≡ some v = rw p at e in subst P (cc e') h.0)
    | inr p ↦ All-lookup P k m v h.1 (rw p at e)
  ]

  module _ (law : (a b : K) → (same a b ≡ true) ↔ (a ≡ b)) where
    pub lookup-remove :
        (k k' : K) (m : List (K × V))
        → lookup k' (remove k m) ≡ (if same k k' then none else lookup k' m)
    lookup-remove k k' [] = ground arith
    lookup-remove k k' ((x, v) ∷ m) =
        ground (arith, lookup-remove k k' m, law x k, law x k', law k k')

    pub lookup-put :
        (k k' : K) (v : V) (m : List (K × V))
        → lookup k' (put k v m) ≡ (if same k k' then some v else lookup k' m)
    lookup-put k k' v m = ground (arith, lookup-remove k k' m)
