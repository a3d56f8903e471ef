-- ===== src/IdentityRepo.antt =====
-- identityrepo/identityrepo.go: the signed data that an account publishes, by kind. The updates name
-- a field by `data.` and the kind, which MongoDB reads as a path: a kind that is not one plain name
-- goes to a parameter of the model.
pub mod Publishing
pub mod Keyed
pub mod Pulling
pub mod Deleting
pub mod Handlers
use any_sync_coordinator.Prelude.{
  ℕ, ◌*◌, String, Bool, true, false, not, Option, none, some, List, [], ◌∷◌, ◌++◌, ℤ, ◌=ₛ◌, ◌==◌,
  ◌&&◌, ◌||◌, ltb, length, map, if◌then◌else◌,
}
use any_sync_coordinator.Prelude.Assoc.{lookup, remove, put}
use any_sync_coordinator.Outcome.{
  Err, invalid_identity, invalid_signature, threshold_reached, Result, ok, err, Action, pure, lift,
  raise_if, ◌>>=◌, ◌>>◌,
}
use any_sync_coordinator.Docs.{Bytes}
use Prim.Native.Char.{Char, code}
use any_sync_coordinator.Time
use any_sync_coordinator.Mongo.{Mongo}
use any_sync_coordinator.Keys.{Keys}

-- Data of object.go
pub record Data : Type 0 where
  pub payload : Bytes
  pub signature : Bytes

-- The map of an entry from kinds to data.
abbrev pub Kinds : Type 0
Kinds = List (String × Data)

-- Entry of object.go
pub record Entry : Type 0 where
  pub id : String
  pub kinds : Kinds
  pub updated : ℤ

abbrev pub Entries : Type 0
Entries = List Entry

-- thresholdDataLen and thresholdIdentityPerReq
abbrev pub threshold_data_len : ℕ
threshold_data_len = 65 * 1024

abbrev pub threshold_identity_per_req : ℕ
threshold_identity_per_req = 350

abbrev pub data_length : Bytes → ℕ
data_length none = 0
data_length (some bs) = length bs

module _ (k : Keys) where
  abbrev pub signature_result : Result Bool → Result (Unit {0}) → Result (Unit {0})
  signature_result (ok true) rest = rest
  signature_result (ok false) rest = err invalid_signature
  signature_result (err e) rest = err e

  -- The loop of validateRequest.
  unfoldable pub validate_data : k.PubKey → Kinds → Result (Unit {0})
  validate_data key [] = ok tt
  validate_data key ((kind, d) ∷ ds) =
      let rest = validate_data key ds in
      if ltb threshold_data_len (data_length d.payload)
      then err threshold_reached
      else signature_result (k.verify key d.payload d.signature) rest

  -- validateRequest
  unfoldable pub validate_request : Result k.PubKey → String → Kinds → Result (Unit {0})
  validate_request (ok key) identity ds =
      if k.account key =ₛ identity then validate_data key ds else err invalid_identity
  validate_request (err e) identity ds = err e

-- The `$set` of Push, where the kinds are plain: a later datum of a kind replaces an earlier one.
unfoldable pub set_all : Kinds → Kinds → Kinds
set_all [] kinds = kinds
set_all ((kind, d) ∷ ds) kinds = set_all ds (put ◌=ₛ◌ kind d kinds)

-- The `$unset` of Delete, where the kinds are plain.
unfoldable pub unset_all : List String → Kinds → Kinds
unset_all [] kinds = kinds
unset_all (kind ∷ ks) kinds = unset_all ks (remove ◌=ₛ◌ kind kinds)

abbrev pub with_kinds : ℤ → (Kinds → Kinds) → Entry → Entry
with_kinds now f e = record e { kinds = f e.kinds; updated = Time.stored now }

-- The requested kinds of an entry, in the order of the request.
unfoldable pub pick : List String → Kinds → Kinds
pick [] kinds = []
pick (kind ∷ ks) kinds =
    let rest = pick ks kinds in
    elim (lookup ◌=ₛ◌ kind kinds) [ none ↦ rest | some d ↦ (kind, d) ∷ rest ]

unfoldable pub is_one_of : List String → Entry → Bool
is_one_of [] e = false
is_one_of (i ∷ is) e = if e.id =ₛ i then true else is_one_of is e

-- The characters of a kind that are a part of a plain name: neither a dot nor NUL.
abbrev is_plain_char : Char → Bool
is_plain_char c = not (code c == 46 || code c == 0)

abbrev are_plain_chars : String → Bool
are_plain_chars String.[] = true
are_plain_chars (String.◌∷◌ c s) = is_plain_char c && are_plain_chars s

-- A kind that MongoDB takes for the name of one field: not empty, without a dot and without NUL, and
-- not an operator, which starts with a dollar.
abbrev pub is_plain : String → Bool
is_plain String.[] = false
is_plain (String.◌∷◌ c s) = not (code c == 36) && (is_plain_char c && are_plain_chars s)

abbrev pub all_plain : List String → Bool
all_plain [] = true
all_plain (kind ∷ kinds) = is_plain kind && all_plain kinds

-- What MongoDB makes of the two updates where a kind is not plain.
pub record Paths : Type 0 where
  pub upsert : ℤ → String → Kinds → Entries → Result Entries
  pub unset : ℤ → String → List String → Entries → Result Entries

module _ (m : Mongo) (paths : Paths) where
  -- The upsert of Push.
  unfoldable pub upsert_kinds : ℤ → String → Kinds → Action Entries (Unit {0})
  upsert_kinds now identity ds entries =
      let new : Entry = record {
        id = identity;
        kinds = set_all ds [];
        updated = Time.stored now;
      } in
      let call =
        if all_plain (map (λ x. x.0) ds)
        then m.upsert_one Entry (λ e. e.id =ₛ identity) (with_kinds now (set_all ds)) new entries
        else paths.upsert now identity ds entries in
      elim call [ ok entries' ↦ (ok tt, entries') | err e ↦ (err e, entries) ]

  -- The two writes of Delete: the whole entry, or some of its kinds.
  unfoldable pub delete_kinds : ℤ → String → List String → Action Entries (Unit {0})
  delete_kinds now identity [] entries = elim (m.delete_one Entry (λ e. e.id =ₛ identity) entries) [
    | ok entries' ↦ (ok tt, entries')
    | err e ↦ (err e, entries)
  ]
  delete_kinds now identity (kind ∷ ks) entries =
      let kinds = kind ∷ ks in
      let call =
        if all_plain kinds
        then m.update_one Entry (λ e. e.id =ₛ identity) (with_kinds now (unset_all kinds)) entries
        else paths.unset now identity kinds entries in
      elim call [ ok entries' ↦ (ok tt, entries') | err e ↦ (err e, entries) ]

  module _ (k : Keys) (pub_key : Result k.PubKey) where
    -- Push
    unfoldable pub push : ℤ → String → Kinds → Action Entries (Unit {0})
    push now identity ds = do
      lift (validate_request k pub_key identity ds)
      upsert_kinds now identity ds

    -- Delete
    unfoldable pub delete : ℤ → String → List String → Action Entries (Unit {0})
    delete now identity kinds = do
      lift (validate_request k pub_key identity [])
      delete_kinds now identity kinds

module _ (m : Mongo) where
  -- Pull: the entries of the identities, with the requested kinds of each.
  unfoldable pub pull : List String → List String → Action Entries (List (String × Kinds))
  pull identities kinds = do
    raise_if (ltb threshold_identity_per_req (length identities)) threshold_reached
    found ← (λ entries. (m.find Entry (is_one_of identities) entries, entries))
    pure (map (λ e. (e.id, pick kinds e.kinds)) found)
