-- ===== src/RpcHandler/Calls.antt =====
-- coordinator/rpchandler.go: AclAddRecord, AclGetRecords and AclUploadInvite.
use any_sync_coordinator.Prelude.{ℕ, ◌*◌, String, none, some, List, [], ◌∷◌, length, ltb}
use any_sync_coordinator.Outcome.{text, Action, Result, lift, pure, raise_if, ◌>>=◌, ◌>>◌}
use any_sync_coordinator.Docs.{Bytes, World}
use any_sync_coordinator.Mongo.{Mongo}
use any_sync_coordinator.Keys.{Keys}
use any_sync_coordinator.Coordinator.{Request, Parts, RawRecordWithId}
use any_sync_coordinator.Coordinator.Acl.{acl_add_record, acl_get_records}

-- len of a []byte
abbrev bytes_length : Bytes → ℕ
bytes_length none = 0
bytes_length (some bs) = length bs

module _ {W : Type 0} (reached : Result (Unit {0}))
    (block_push : Bytes → Bytes → Result (Unit {0})) where
  -- AclUploadInvite: `reached` is whether the pool has a file peer, `block_push` the peer's answer.
  unfoldable pub acl_upload_invite : Bytes → Bytes → Action W (Unit {0})
  acl_upload_invite cid payload = do
    lift reached
    raise_if (ltb (128 * 1024) (bytes_length payload)) (text "too big invite size")
    lift (block_push cid payload)

module _ (m : Mongo) (k : Keys) (c : Parts k.PubKey) (req : Request k.PubKey) where
  -- AclAddRecord: the id and the payload of the record.
  unfoldable pub add_acl_record : String → Bytes → Action World (String × Bytes)
  add_acl_record space_id payload = do
    rec ← acl_add_record m k c req space_id payload
    pure (rec.id, rec.payload)

  -- The loop of AclGetRecords.
  unfoldable pub marshal_each : List RawRecordWithId → Action World (List Bytes)
  marshal_each [] = pure []
  marshal_each (r ∷ rs) = do
    marshalled ← lift (c.acl.marshal_record r)
    rest ← marshal_each rs
    pure (marshalled ∷ rest)

  -- AclGetRecords
  unfoldable pub read_acl_records : String → String → Action World (List Bytes)
  read_acl_records space_id acl_head = do
    recs ← acl_get_records m k c req space_id acl_head
    marshal_each recs
