-- ===== src/Paged.antt =====
-- What the logs and the inbox promise to a reader that comes back for the next page: an interface,
-- which deletionlog/deletionlog.go, acleventlog/acleventlog.go and inbox/inbox.go fill.
pub mod Following
pub mod Splitting
use any_sync_coordinator.Prelude.{
  ℕ, ◌≤◌, String, Bool, false, inl, inr, ◌≡◌, ◌⊎◌, List, [], ◌∷◌, ◌++◌, length, take, ltb,
}
use any_sync_coordinator.Outcome.{Action, driver, ok, err}

-- One page of the entries that are left, and whether there are more.
abbrev pub page : {A : Type 0} → ℕ → List A → List A × Bool
page limit rest = (take limit rest, ltb limit (length rest))

-- The call reads the value, or the driver fails; it writes nothing.
abbrev pub Reads : {W A : Type 0} → Action W A → W → A → Type 0
Reads f w a = (f w ≡ (ok a, w)) ⊎ ((n : ℕ) × (f w ≡ (err (driver n), w)))

-- The call reads the first of the entries that are left, no more than the limit, and says that there
-- are no others.
abbrev pub IsCut : {W A : Type 0} → Action W (List A × Bool) → W → ℕ → List A → Type 0
IsCut f w limit rest = (j : ℕ) × (j ≤ limit) × (f w ≡ (ok (take j rest, false), w))

-- What a call answers that does not look at the error of its cursor.
abbrev pub ReadsUnchecked : {W A : Type 0} → Action W (List A × Bool) → W → ℕ → List A → Type 0
ReadsUnchecked f w limit rest = Reads f w (page limit rest) ⊎ IsCut f w limit rest

-- The call reads the first of the entries, or the driver fails; it writes nothing.
abbrev pub ReadsSome : {W A : Type 0} → Action W (List A × Bool) → W → List A → Type 0
ReadsSome f w rest =
    ((j : ℕ) × (more : Bool) × (f w ≡ (ok (take j rest, more), w)))
    ⊎ ((n : ℕ) × (f w ≡ (err (driver n), w)))

pub Reads-ReadsSome :
    {W A : Type 0} (f : Action W (List A × Bool)) (w : W) (limit : ℕ) (rest : List A)
    → Reads f w (page limit rest)
    → ReadsSome f w rest
Reads-ReadsSome f w limit rest (inl p) = inl (limit, ltb limit (length rest), p)
Reads-ReadsSome f w limit rest (inr (n, p)) = inr (n, p)

pub ReadsUnchecked-ReadsSome :
    {W A : Type 0} (f : Action W (List A × Bool)) (w : W) (limit : ℕ) (rest : List A)
    → ReadsUnchecked f w limit rest
    → ReadsSome f w rest
ReadsUnchecked-ReadsSome f w limit rest (inl r) = Reads-ReadsSome f w limit rest r
ReadsUnchecked-ReadsSome f w limit rest (inr (j, _, p)) = inl (j, false, p)

-- The entries in their order, and a call that reads them in pages, by the cursor of the last entry
-- that was read, or by the empty cursor. `Answers` is what a call with a cursor can answer where the
-- given entries are left.
pub record PagedLog (W A : Type 0) : Type 1 where
  pub entries : W → List A
  pub cursor : A → String
  pub IsReady : W → Type 0
  pub limit : ℕ
  pub limit_pos : 1 ≤ limit
  pub get_after : String → Action W (List A × Bool)
  pub Answers : String → W → List A → Type 0
  pub reads_some :
      (c : String) (w : W) (rest : List A) → Answers c w rest → ReadsSome (get_after c) w rest
  pub start : (w : W) → IsReady w → Answers "" w (entries w)
  pub next :
      (w : W)
      → IsReady w
      → (xs : List A) (a : A) (ys : List A) → entries w ≡ xs ++ a ∷ ys
      → Answers (cursor a) w ys

-- Every call is answered by a whole page.
pub record IsPrompt {W A : Type 0} (log : PagedLog W A) (w : W) : Type 0 where
  pub start : log.get_after "" w ≡ (ok (page log.limit (log.entries w)), w)
  pub next :
      (xs : List A) (a : A) (ys : List A)
      → log.entries w ≡ xs ++ a ∷ ys
      → log.get_after (log.cursor a) w ≡ (ok (page log.limit ys), w)
