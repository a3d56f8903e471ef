-- ===== src/Mongo/Memory.antt =====
-- A driver that never fails, as a list of documents in memory: the laws of `Documented` can hold.
use any_sync_coordinator.Prelude.{
  ℕ, zero, suc, ◌+◌, ◌≤◌, ◌<◌, ◌==◌, List, [], ◌∷◌, All, arith, String, ◌≡◌, false, ◌=ₛ◌, ap,
  =ₛ_iff, Bool-cases, inl, inr, refl, first, select, take, replace_first, drop_first, count,
}
use any_sync_coordinator.Outcome.{text, Result, ok, err}
use any_sync_coordinator.Docs.{ObjectId, status_entry}
use any_sync_coordinator.Mongo.{
  Mongo, Documented, Steady, Reliable, or_no_documents, inserted, upserted, updated, sort_by, last,
}

-- The laws ask of an encoding only that it can be read back: one letter for each unit.
abbrev ones : ObjectId → String
ones zero = String.[]
ones (suc n) = String.◌∷◌ "1" (ones n)

abbrev hex : ObjectId → String
hex n = String.◌∷◌ "0" (ones n)

abbrev letters : String → ObjectId
letters String.[] = 0
letters (String.◌∷◌ c s) = suc (letters s)

abbrev object_id_from_hex : String → Result ObjectId
object_id_from_hex String.[] = err (text "the provided hex string is not a valid ObjectID")
object_id_from_hex (String.◌∷◌ c s) = ok (letters s)

letters-ones : (i : ObjectId) → letters (ones i) ≡ i
letters-ones zero = refl
letters-ones (suc n) = ap suc (letters-ones n)

hex_round_trip : (i : ObjectId) → object_id_from_hex (hex i) ≡ ok i
hex_round_trip i = rw letters-ones

hex_not_empty : (i : ObjectId) → (hex i =ₛ "") ≡ false
hex_not_empty i = elim (Bool-cases (hex i =ₛ "")) [
  | inl e ↦ absurd (cc ((=ₛ_iff (hex i) "").0 e))
  | inr e ↦ e
]

-- A number above all of the list.
abbrev above : List ObjectId → ObjectId
above [] = 1
above (i ∷ ids) = i + above ids

above_pos : (ids : List ObjectId) → 0 < above ids
above_pos [] = omega arith
above_pos (i ∷ ids) = omega (arith, above_pos ids)

above-All : (ids : List ObjectId) (n : ℕ) → above ids ≤ n → All (λ i. (i == n) ≡ false) ids
above-All [] n h = tt
above-All (i ∷ ids) n h = (ground (arith, above_pos ids), above-All ids n (omega arith))

abbrev pub memory : Mongo
memory = record {
  find_one = λ D q docs. or_no_documents (first q docs);
  find = λ D q docs. ok (select q docs);
  find_sorted = λ D key limit q docs. ok (take limit (sort_by key (select q docs)));
  walk = λ D q docs. ok (select q docs, ok tt);
  walk_sorted = λ D key limit q docs. ok (take limit (sort_by key (select q docs)), ok tt);
  find_last = λ D key q docs. or_no_documents (last (sort_by key (select q docs)));
  count_documents = λ D q docs. ok (count q docs);
  insert_one = λ D same a docs. inserted a docs (first same docs);
  update_one = λ D q f docs. ok (replace_first q f docs);
  upsert_one = λ D q f a docs. ok (upserted q f a docs (first q docs));
  delete_one = λ D q docs. ok (drop_first q docs);
  find_one_and_update = λ D q f docs. updated f (replace_first q f docs) (first q docs);
  decode = λ d. ok (status_entry d);
  new_object_id = λ ids. above ids;
  hex = hex;
  object_id_from_hex = object_id_from_hex;
  start_transaction = λ w. ok tt;
  abort_transaction = λ w w'. w;
  commit_transaction = λ w w'. (ok tt, w');
}

pub memory-Documented : Documented memory
memory-Documented = record {
  find_one_lem = λ D q docs. inl refl;
  find_lem = λ D q docs. inl refl;
  find_sorted_lem = λ D key limit q docs. inl refl;
  walk_lem = λ D q docs. inl refl;
  walk_sorted_lem = λ D key limit q docs. inl refl;
  find_last_lem = λ D key q docs. inl refl;
  count_documents_lem = λ D q docs. inl refl;
  insert_one_lem = λ D same a docs. inl refl;
  update_one_lem = λ D q f docs. inl refl;
  upsert_one_lem = λ D q f a docs. inl refl;
  delete_one_lem = λ D q docs. inl refl;
  find_one_and_update_lem = λ D q f docs. inl refl;
  decode_lem = λ d. inl refl;
  object_id_from_hex_lem = hex_round_trip;
  hex_nonempty = hex_not_empty;
  new_object_id_fresh = λ ids. above-All ids (above ids) (omega arith);
  start_lem = λ w. inl refl;
  abort_lem = λ w w'. refl;
  commit_lem = λ w w'. inl refl;
}

pub memory-Steady : Steady memory
memory-Steady = record { decode_lem = λ d. refl; insert_one_lem = λ D same a docs. refl }

pub memory-Reliable : Reliable memory
memory-Reliable = record {
  steady = memory-Steady;
  walk_lem = λ D q docs. refl;
  find_one_and_update_lem = λ D q f docs. refl;
  start_lem = λ w. refl;
  commit_lem = λ w w'. refl;
}
