-- ===== src/Tests/Identity.antt =====
-- The theorems on the identity repository, at an entry that is replaced in one kind.
use any_sync_coordinator.Prelude.{
  ℕ, ◌&&◌, ◌⊎◌, String, ◌≡◌, refl, none, some, [], ◌∷◌, ◌=ₛ◌, pos, All, if◌then◌else◌,
}
use any_sync_coordinator.Outcome.{ok, err, driver, lift, ◌>>=◌}
use any_sync_coordinator.Mongo.Memory.{memory, memory-Documented}
use any_sync_coordinator.IdentityRepo.{
  Data, Kinds, Paths, Entries, validate_data, validate_request, upsert_kinds, push, pull, delete,
  delete_kinds,
}
use any_sync_coordinator.IdentityRepo.Publishing.{datum_at, latest, IsSigned, push-ok}
use any_sync_coordinator.IdentityRepo.Keyed.{IsKeyed}
use any_sync_coordinator.IdentityRepo.Pulling.{wanted, push-pull}
use any_sync_coordinator.IdentityRepo.Deleting.{is_asked, delete-ok}
use any_sync_coordinator.Tests.{keys}

abbrev old : Data
old = record { payload = none; signature = none }

abbrev profile : Data
profile = record { payload = some (1 ∷ []); signature = some (2 ∷ []) }

-- A server that refuses every path.
abbrev no_paths : Paths
no_paths = record {
  upsert = λ now identity ds es. err (driver 52);
  unset = λ now identity kinds es. err (driver 52);
}

abbrev entries : Entries
entries = record { id = "bob"; kinds = ("profile", old) ∷ ("key", old) ∷ []; updated = pos 0 } ∷ []

abbrev pushed : Kinds
pushed = ("profile", profile) ∷ []

push_succeeds : (push memory no_paths keys (ok "bob") (pos 9) "bob" pushed entries).0 ≡ ok tt
unfolding push validate_request validate_data upsert_kinds lift ◌>>=◌
push_succeeds = refl

push-ok_example :
    (key : String) × (ok "bob" ≡ ok key)
    × (key ≡ "bob")
    × All (IsSigned keys key) pushed
    × (datum_at "bob" "profile"
          (push memory no_paths keys (ok "bob") (pos 9) "bob" pushed entries).1
        ≡ (if "bob" =ₛ "bob"
            then latest "profile" pushed (datum_at "bob" "profile" entries)
            else datum_at "bob" "profile" entries))
push-ok_example =
    push-ok memory-Documented no_paths (pos 9) "bob" pushed entries refl keys (ok "bob") tt
      push_succeeds "bob" "profile"

entries-IsKeyed : IsKeyed entries
entries-IsKeyed = (tt, tt)

push-pull_example :
    let es = (push memory no_paths keys (ok "bob") (pos 9) "bob" pushed entries).1 in
    (pull memory ("bob" ∷ []) ("key" ∷ "profile" ∷ "name" ∷ []) es ≡ (
      ok (
          (
            "bob",
            wanted
                (λ kind. latest kind pushed (datum_at "bob" kind entries))
                ("key" ∷ "profile" ∷ "name" ∷ []),
          )
          ∷ []),
      es,
    ))
    ⊎ ((n : ℕ) × (pull memory ("bob" ∷ []) ("key" ∷ "profile" ∷ "name" ∷ []) es
          ≡ (err (driver n), es)))
push-pull_example =
    push-pull memory-Documented no_paths (pos 9) "bob" pushed entries refl keys (ok "bob") tt
      entries-IsKeyed push_succeeds ("key" ∷ "profile" ∷ "name" ∷ [])

key_deleted : (delete memory no_paths keys (ok "bob") (pos 9) "bob" ("key" ∷ []) entries).0 ≡ ok tt
unfolding delete delete_kinds validate_request validate_data lift ◌>>=◌
key_deleted = refl

delete-ok_example :
    (key : String) × (ok "bob" ≡ ok key)
    × (key ≡ "bob")
    × ((i kind : String)
        → datum_at i kind
            (delete memory no_paths keys (ok "bob") (pos 9) "bob" ("key" ∷ []) entries).1
          ≡ (if "bob" =ₛ i && is_asked kind ("key" ∷ []) then none else datum_at i kind entries))
delete-ok_example =
    delete-ok memory-Documented no_paths (pos 9) "bob" entries keys (ok "bob") ("key" ∷ []) tt
      entries-IsKeyed refl key_deleted
