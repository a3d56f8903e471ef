-- ===== src/SpaceStatus/Accounts.antt =====
-- What AccountDelete and AccountRevertDeletion do to all spaces of an account.
use any_sync_coordinator.Prelude.{
  ℕ, String, Bool, true, false, not, ◌&&◌, ◌≡◌, refl, ap, ◌∙◌, ◌==◌, ◌=ₛ◌, Option, none, some,
  arith, if◌then◌else◌,
}
use any_sync_coordinator.Outcome.{Err, ok, Action, raise_if, ◌>>=◌, ◌>>◌, raise_if-same, >>=-reads}
use any_sync_coordinator.Docs.{World, SpaceDoc}
use any_sync_coordinator.Mongo.{Mongo, Documented}
use any_sync_coordinator.Keys.{Keys}
use any_sync_coordinator.SpaceStatus.{
  StatusChange, find_status, modify_status_op, account_status_find_tx,
}
use any_sync_coordinator.SpaceStatus.Deletion.{find_entries, set_each}
use any_sync_coordinator.SpaceStatus.Invariant.{IsConsistent}
use any_sync_coordinator.SpaceStatus.Reads.{account_status_find_tx-same}
use any_sync_coordinator.SpaceStatus.KeepsDeletion.{
  find_entries-ok, find_entries-same, find_entries-IsNamed,
}
use any_sync_coordinator.SpaceStatus.Keyed.{space_at}
use any_sync_coordinator.SpaceStatus.AccountLoop.{
  map_doc, passes, listed, listed-select, set_each-spaces,
}

-- The space belongs to the account and has the status.
abbrev pub owned : String → ℕ → SpaceDoc → Bool
owned account n d = d.identity =ₛ account && d.status == n

-- Every space of the account with the status is updated, and no other space.
abbrev pub Updates : String → ℕ → (SpaceDoc → SpaceDoc) → World → World → Type 0
Updates account n op w w' =
    (j : String)
    → space_at j w'.spaces
      ≡ map_doc (λ d. if owned account n d then op d else d) (space_at j w.spaces)

-- The common form of the two transactions.
abbrev pub account_tx :
    (m : Mongo) (k : Keys)
    → String
    → ℕ
    → Err
    → (String → StatusChange k.PubKey)
    → Action World (Unit {0})
account_tx m k account n x change = do
  found ← account_status_find_tx m account n
  raise_if (not found) x
  spaces ← find_entries m account n
  set_each m k change n spaces

query-owned :
    (account : String) (n : ℕ) (d : SpaceDoc)
    → (account =ₛ "") ≡ false
    → find_status (record { space_id = ""; status = some n; identity = account }) d
      ≡ owned account n d
unfolding find_status
query-owned account n d h = ground arith

combine :
    (op : SpaceDoc → SpaceDoc) (q : SpaceDoc → Bool) (account : String) (n : ℕ)
    (o : Option SpaceDoc)
    → ((d : SpaceDoc) → q d ≡ owned account n d)
    → (if passes q o then map_doc op o else o)
      ≡ map_doc (λ d. if owned account n d then op d else d) o
combine op q account n none h = refl
combine op q account n (some d) h = ground (arith, h d)

module _ {m : Mongo} (law : Documented m) (k : Keys) (account : String) (n : ℕ) (x : Err)
    (change : String → StatusChange k.PubKey) (op : SpaceDoc → SpaceDoc)
    (same : (i : String) → (change i).space_id ≡ i)
    (uniform : (i : String) (d : SpaceDoc) → modify_status_op (change i) d ≡ op d)
    (again : (d : SpaceDoc) → op (op d) ≡ op d) where
  pub account_tx-Updates :
      (w : World) (u : Unit {0})
      → (account =ₛ "") ≡ false
      → IsConsistent w
      → (account_tx m k account n x change w).0 ≡ ok u
      → Updates account n op w (account_tx m k account n x change w).1
  account_tx-Updates w u named h p j =
      let (found, p1, s1, r1) = >>=-reads _ _ w u (account_status_find_tx-same m w account n) p in
      let (v, p2, s2, r2) = >>=-reads _ _ w u (raise_if-same (not found) x w) r1 in
      let (es, p3, s3, r3) = >>=-reads _ _ w u (find_entries-same law account n w) r2 in
      let q = find_status (record { space_id = ""; status = some n; identity = account }) in
      let named_es = ((find_entries-IsNamed law account n).at w es h p3).1 in
      let loop = set_each-spaces law k change n op same uniform again es w u named_es h r3 j in
      ap (λ r. space_at j r.1.spaces) (s1 ∙ s2 ∙ s3)
      ∙ (loop
          ∙ (ap (λ b. if b then map_doc op (space_at j w.spaces) else space_at j w.spaces)
                (ap (listed j) (find_entries-ok law account n w es p3)
                  ∙ listed-select j q w.spaces h.keyed)
              ∙ combine op q account n (space_at j w.spaces) (λ d. query-owned account n d named)))

  -- The transaction runs only if the account has a tech space with the status.
  pub account_tx-found :
      (w : World) (u : Unit {0})
      → (account_tx m k account n x change w).0 ≡ ok u
      → (account_status_find_tx m account n w).0 ≡ ok true
  account_tx-found w u p =
      let (found, p1, s1, r1) = >>=-reads _ _ w u (account_status_find_tx-same m w account n) p in
      let (v, p2, s2, r2) = >>=-reads _ _ w u (raise_if-same (not found) x w) r1 in
      unfold raise_if in ground arith
