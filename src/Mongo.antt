-- ===== src/Mongo.antt =====
-- The MongoDB driver as the coordinator uses it, and the transaction wrapper of db/db.go.
-- The driver is a parameter: a record of its calls. `Documented` states what its documentation
-- says of them. A query is the predicate on documents that it denotes, and a collection is the
-- list of its documents in natural order.
pub mod Memory
pub mod Laws
pub mod Triple
pub mod Ordered
use any_sync_coordinator.Prelude.{
  ℕ, String, Bool, false, ◌=ₛ◌, Option, none, some, List, [], ◌∷◌, ◌++◌, ◌≡◌, ◌⊎◌, first, select,
  take, replace_first, drop_first, count, All, leb, ◌==◌, if◌then◌else◌,
}
use any_sync_coordinator.Outcome.{Err, driver, no_documents, Result, ok, err, Action}
use any_sync_coordinator.Docs.{World, SpaceDoc, StatusEntry, status_entry, ObjectId}

-- The outcome of a call is a function of its arguments and of the documents that it sees; it
-- may be a failure of the driver at any of them. `find_sorted` is Find sorted by `_id` with a
-- limit, and `find_last` FindOne sorted by descending `_id`; `find` and `find_sorted` stand for the
-- query with the loop that decodes every document and then looks at the error of the cursor. `walk`
-- and `walk_sorted` stand for the query with a loop after which the caller may leave that error
-- unread: they give the documents that Next has yielded, and what Err would say. `walk_sorted`
-- decodes the documents, `walk` leaves that to the caller.
-- `new_object_id ids` is the `_id` that the driver gives to a document inserted without one into a
-- collection with those ids.
pub record Mongo : Type 1 where
  pub find_one : (Doc : Type 0) → (Doc → Bool) → List Doc → Result Doc
  pub find : (Doc : Type 0) → (Doc → Bool) → List Doc → Result (List Doc)
  pub find_sorted :
      (Doc : Type 0) → (Doc → ObjectId) → ℕ → (Doc → Bool) → List Doc → Result (List Doc)
  pub walk : (Doc : Type 0) → (Doc → Bool) → List Doc → Result (List Doc × Result (Unit {0}))
  pub walk_sorted :
      (Doc : Type 0)
      → (Doc → ObjectId)
      → ℕ
      → (Doc → Bool)
      → List Doc
      → Result (List Doc × Result (Unit {0}))
  pub find_last : (Doc : Type 0) → (Doc → ObjectId) → (Doc → Bool) → List Doc → Result Doc
  pub count_documents : (Doc : Type 0) → (Doc → Bool) → List Doc → Result ℕ
  pub insert_one : (Doc : Type 0) → (Doc → Bool) → Doc → List Doc → Result (List Doc)
  pub update_one : (Doc : Type 0) → (Doc → Bool) → (Doc → Doc) → List Doc → Result (List Doc)
  pub upsert_one : (Doc : Type 0) → (Doc → Bool) → (Doc → Doc) → Doc → List Doc → Result (List Doc)
  pub delete_one : (Doc : Type 0) → (Doc → Bool) → List Doc → Result (List Doc)
  pub find_one_and_update :
      (Doc : Type 0) → (Doc → Bool) → (Doc → Doc) → List Doc → Result (Doc × List Doc)
  pub decode : SpaceDoc → Result StatusEntry
  pub new_object_id : List ObjectId → ObjectId
  pub hex : ObjectId → String
  pub object_id_from_hex : String → Result ObjectId
  pub start_transaction : World → Result (Unit {0})
  pub abort_transaction : World → World → World
  pub commit_transaction : World → World → Result (Unit {0}) × World

-- The call failed in the driver.
abbrev pub IsFault : {A : Type 0} → Result A → Type 0
IsFault r = (n : ℕ) × (r ≡ err (driver n))

abbrev pub or_no_documents : {A : Type 0} → Option A → Result A
or_no_documents none = err no_documents
or_no_documents (some a) = ok a

-- A document is inserted only if no other has its `_id`.
abbrev pub inserted : {A : Type 0} → A → List A → Option A → Result (List A)
inserted a docs none = ok (docs ++ a ∷ [])
inserted a docs (some _) = err (driver 11000)

-- An upsert inserts the given document where none matches.
abbrev pub upserted : {A : Type 0} → (A → Bool) → (A → A) → A → List A → Option A → List A
upserted q f a docs none = docs ++ a ∷ []
upserted q f a docs (some _) = replace_first q f docs

abbrev pub updated : {A : Type 0} → (A → A) → List A → Option A → Result (A × List A)
updated f docs none = err no_documents
updated f docs (some a) = ok (f a, docs)

abbrev pub sorted_insert : {A : Type 0} → (A → ObjectId) → A → List A → List A
sorted_insert key a [] = a ∷ []
sorted_insert key a (b ∷ l) = if leb (key a) (key b) then a ∷ b ∷ l else b ∷ sorted_insert key a l

abbrev pub sort_by : {A : Type 0} → (A → ObjectId) → List A → List A
sort_by key [] = []
sort_by key (a ∷ l) = sorted_insert key a (sort_by key l)

abbrev pub last : {A : Type 0} → List A → Option A
last [] = none
last (a ∷ []) = some a
last (a ∷ b ∷ l) = last (b ∷ l)

-- A cursor yields all documents, or it fails and has yielded the first of them, or there is none.
abbrev pub Walked : {A : Type 0} → List A → Result (List A × Result (Unit {0})) → Type 0
Walked all r =
    (r ≡ ok (all, ok tt)) ⊎ ((j : ℕ) × (n : ℕ) × (r ≡ ok (take j all, err (driver n)))) ⊎ IsFault r

-- What the driver's documentation says: each call has its effect or fails in the driver; the
-- writes of an aborted transaction are undone; a commit that fails may have been carried out.
pub record Documented (m : Mongo) : Type 1 where
  pub find_one_lem :
      (Doc : Type 0) (q : Doc → Bool) (docs : List Doc)
      → (m.find_one Doc q docs ≡ or_no_documents (first q docs)) ⊎ IsFault (m.find_one Doc q docs)
  pub find_lem :
      (Doc : Type 0) (q : Doc → Bool) (docs : List Doc)
      → (m.find Doc q docs ≡ ok (select q docs)) ⊎ IsFault (m.find Doc q docs)
  pub find_sorted_lem :
      (Doc : Type 0) (key : Doc → ObjectId) (limit : ℕ) (q : Doc → Bool) (docs : List Doc)
      → (m.find_sorted Doc key limit q docs ≡ ok (take limit (sort_by key (select q docs))))
        ⊎ IsFault (m.find_sorted Doc key limit q docs)
  pub walk_lem :
      (Doc : Type 0) (q : Doc → Bool) (docs : List Doc) → Walked (select q docs) (m.walk Doc q docs)
  pub walk_sorted_lem :
      (Doc : Type 0) (key : Doc → ObjectId) (limit : ℕ) (q : Doc → Bool) (docs : List Doc)
      → Walked (take limit (sort_by key (select q docs))) (m.walk_sorted Doc key limit q docs)
  pub find_last_lem :
      (Doc : Type 0) (key : Doc → ObjectId) (q : Doc → Bool) (docs : List Doc)
      → (m.find_last Doc key q docs ≡ or_no_documents (last (sort_by key (select q docs))))
        ⊎ IsFault (m.find_last Doc key q docs)
  pub count_documents_lem :
      (Doc : Type 0) (q : Doc → Bool) (docs : List Doc)
      → (m.count_documents Doc q docs ≡ ok (count q docs)) ⊎ IsFault (m.count_documents Doc q docs)
  pub insert_one_lem :
      (Doc : Type 0) (same_id : Doc → Bool) (a : Doc) (docs : List Doc)
      → (m.insert_one Doc same_id a docs ≡ inserted a docs (first same_id docs))
        ⊎ IsFault (m.insert_one Doc same_id a docs)
  pub update_one_lem :
      (Doc : Type 0) (q : Doc → Bool) (f : Doc → Doc) (docs : List Doc)
      → (m.update_one Doc q f docs ≡ ok (replace_first q f docs))
        ⊎ IsFault (m.update_one Doc q f docs)
  pub upsert_one_lem :
      (Doc : Type 0) (q : Doc → Bool) (f : Doc → Doc) (a : Doc) (docs : List Doc)
      → (m.upsert_one Doc q f a docs ≡ ok (upserted q f a docs (first q docs)))
        ⊎ IsFault (m.upsert_one Doc q f a docs)
  pub delete_one_lem :
      (Doc : Type 0) (q : Doc → Bool) (docs : List Doc)
      → (m.delete_one Doc q docs ≡ ok (drop_first q docs)) ⊎ IsFault (m.delete_one Doc q docs)
  pub find_one_and_update_lem :
      (Doc : Type 0) (q : Doc → Bool) (f : Doc → Doc) (docs : List Doc)
      → (m.find_one_and_update Doc q f docs ≡ updated f (replace_first q f docs) (first q docs))
        ⊎ IsFault (m.find_one_and_update Doc q f docs)
  pub decode_lem : (d : SpaceDoc) → (m.decode d ≡ ok (status_entry d)) ⊎ IsFault (m.decode d)
  pub object_id_from_hex_lem : (i : ObjectId) → m.object_id_from_hex (m.hex i) ≡ ok i
  pub hex_nonempty : (i : ObjectId) → (m.hex i =ₛ "") ≡ false
  pub new_object_id_fresh :
      (ids : List ObjectId) → All (λ i. (i == m.new_object_id ids) ≡ false) ids
  pub start_lem : (w : World) → (m.start_transaction w ≡ ok tt) ⊎ IsFault (m.start_transaction w)
  pub abort_lem : (w w' : World) → m.abort_transaction w w' ≡ w
  pub commit_lem :
      (w w' : World)
      → (m.commit_transaction w w' ≡ (ok tt, w'))
        ⊎ ((n : ℕ) × (m.commit_transaction w w' ≡ (err (driver n), w)))
        ⊎ ((n : ℕ) × (m.commit_transaction w w' ≡ (err (driver n), w')))

-- A driver that does not fail where it decodes a document or inserts one.
pub record Steady (m : Mongo) : Type 1 where
  pub decode_lem : (d : SpaceDoc) → m.decode d ≡ ok (status_entry d)
  pub insert_one_lem :
      (Doc : Type 0) (same_id : Doc → Bool) (a : Doc) (docs : List Doc)
      → m.insert_one Doc same_id a docs ≡ inserted a docs (first same_id docs)

-- A driver that does not fail in the calls that a change of status is made of, nor in a query whose
-- documents are walked through.
pub record Reliable (m : Mongo) : Type 1 where
  pub steady : Steady m
  pub walk_lem :
      (Doc : Type 0) (q : Doc → Bool) (docs : List Doc)
      → m.walk Doc q docs ≡ ok (select q docs, ok tt)
  pub find_one_and_update_lem :
      (Doc : Type 0) (q : Doc → Bool) (f : Doc → Doc) (docs : List Doc)
      → m.find_one_and_update Doc q f docs ≡ updated f (replace_first q f docs) (first q docs)
  pub start_lem : (w : World) → m.start_transaction w ≡ ok tt
  pub commit_lem : (w w' : World) → m.commit_transaction w w' ≡ (ok tt, w')

module _ (m : Mongo) {A : Type 0} where
  abbrev commit : World → A → World → Result A × World
  commit w a w' =
      let (r, w'') = m.commit_transaction w w' in
      elim r [ ok _ ↦ (ok a, w'') | err e ↦ (err e, w'') ]

  abbrev finish : World → Result A → World → Result A × World
  finish w (ok a) w' = commit w a w'
  finish w (err e) w' = (err e, m.abort_transaction w w')

  -- database.Tx: an error of the body aborts the transaction and is returned. A value that the
  -- body hands out through a captured variable is its result.
  unfoldable pub tx : Action World A → Action World A
  tx f w = elim (m.start_transaction w) [
    | ok _ ↦ (let (r, w') = f w in finish w r w')
    | err e ↦ (err e, w)
  ]
