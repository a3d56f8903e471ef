-- ===== src/Account.antt =====
-- account/service.go: the keys of the coordinator.
use any_sync_coordinator.Prelude.{String}
use any_sync_coordinator.Outcome.{Result, ok, err}

-- The two keys of accountservice.Config that are read.
pub record AccountConfig : Type 0 where
  pub signing_key : String
  pub peer_key : String

module _ {PrivKey AccountKeys : Type 0} (decode_key_from_string : String → Result PrivKey)
    (new_keys : PrivKey → PrivKey → AccountKeys) where
  abbrev with_peer_key : PrivKey → Result PrivKey → Result AccountKeys
  with_peer_key signing (ok peer) = ok (new_keys peer signing)
  with_peer_key signing (err e) = err e

  abbrev with_signing_key : AccountConfig → Result PrivKey → Result AccountKeys
  with_signing_key acc (ok signing) = with_peer_key signing (decode_key_from_string acc.peer_key)
  with_signing_key acc (err e) = err e

  -- Init: the keys that accountdata.New makes of the two decoded ones.
  unfoldable pub init : AccountConfig → Result AccountKeys
  init acc = with_signing_key acc (decode_key_from_string acc.signing_key)
