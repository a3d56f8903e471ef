-- ===== src/Lib.antt =====
-- Verification of the any-sync coordinator: a model of its space, account, limit and ACL logic, and
-- theorems about it.
--
-- The program. The coordinator keeps the status of every space (spacestatus/spacestatus.go): a
-- space is created, waits for its deletion, or is deleted. Every change of a status appends a record
-- to the deletion log (deletionlog/deletionlog.go), which file nodes follow in pages. A periodic
-- deleter (spacestatus/spacedeleter.go) deletes the spaces whose time has come. Requests come in
-- through coordinator/rpchandler.go and coordinator/coordinator.go, which check the caller, the
-- payload or the header (spacestatus/changeverifier.go), and the limits of the account
-- (accountlimit/accountlimit.go), and which write two more logs (acleventlog/acleventlog.go and
-- coordinatorlog/coordinatorlog.go). Messages between accounts wait in an inbox (inbox/inbox.go), and
-- peers are notified of them by streams (subscribe/service.go). Accounts publish signed data
-- about themselves (identityrepo/identityrepo.go).
--
-- The model. A component's method is an `Action World A` (Outcome): it takes the collections and
-- returns a result or an error, with the collections beside either. The documents are in Docs, by
-- their bson tags.
--   Mongo           the MongoDB driver, a parameter whose documented behaviour is `Documented`, and
--                   the transaction wrapper Tx of db/db.go; Mongo/Memory is a driver that has it
--   Time, Keys      Go's times and durations with their int64 wrap-around; any-sync's public keys
--   DeletionLog     deletionlog/deletionlog.go: GetAfter, Add, AddOwnershipChange
--   AclEventLog     acleventlog/acleventlog.go: GetAfter, AddLog
--   CoordinatorLog  coordinatorlog/coordinatorlog.go: SpaceReceipt
--   AccountLimit    accountlimit/accountlimit.go: SetLimits, GetLimits, GetLimitsBySpace
--   SpaceStatus     spacestatus/spacestatus.go: Status, setStatusTx, checkLimitTx, ChangeOwner; below
--                   it Deletion (AccountDelete, AccountRevertDeletion, SpaceDelete), Change
--                   (ChangeStatus), Creation (NewStatus), Sharing (MakeShareable, MakeUnshareable),
--                   Deleter (spacedeleter.go) and Verifier (changeverifier.go); its other children
--                   are proofs
--   Coordinator     coordinator/coordinator.go, in Deletions, Receipts, Acl and Sharing
--   RpcHandler      coordinator/rpchandler.go, with Network, Logs, Calls, Messages and Spaces; Served
--                   is a history of calls to it and of runs of the deleter
--   Inbox           inbox/inbox.go and inbox/message.go: InboxAddMessage, InboxFetch; Listener is
--                   Run and streamListener, over the changes that the driver hands out, and
--                   Arrival puts the three together
--   Subscribe       subscribe/service.go: Init, AddStream, waitCloseStream, NotifyAllPeers, Close;
--                   Histories is a step relation on the maps and the goroutines that wait
--   IdentityRepo    identityrepo/identityrepo.go: Push, Pull, Delete; Handlers is its rpchandler.go
--   Paged           the interface of a log that is read in pages by the last id, and its readers, which
--                   ask again while the log grows; DeletionLog, AclEventLog and Inbox have it
--   NodeConfSource  nodeconfsource/source.go: GetLast, Add
--   Config, Account config/config.go and account/service.go: NewFromFile, Init
--   ConfApply       cmd/confapply/confapply.go: the command that stores a network configuration
--   Tests           concrete inputs at which the hypotheses of the theorems hold
--
-- Names. A Go method fooBar is foo_bar. Where the coordinator's method has the name of the one that it
-- calls, it is turned round: coordinator.SpaceDelete is delete_space, and SpaceDelete of spacestatus
-- is space_delete.
--
-- Loops run over lists, so no fuel is needed. Integers that the code adds or multiplies keep their
-- width: durations wrap at 64 bits, the count of shareable spaces is cut to 32.
--
-- Driver failures. Any call of the driver may fail, at any point, where a theorem does not say
-- otherwise; the writes of a failed transaction are undone, and a failed commit may have been carried
-- out. The logs and the deleter do not look at the error of their cursor: a cursor that fails yields the
-- first of the documents, and the call goes on with these. `Steady` is a driver that does not fail in decoding a document or in an insertion: a forced
-- creation in a history needs one, since NewStatus drops the error of its change of status and may
-- then commit half of it. `Reliable` is a driver that does not fail at all, which a run of the deleter
-- needs to delete everything that is due.
--
-- What MongoDB makes of the data. A time.Time is kept in whole milliseconds, rounded down
-- (`Time.stored`); the other times are int64 Unix seconds. A kind of the identity repository that is
-- not the name of one field (empty, with a dot or NUL in it, or with a dollar at its start) is read as
-- a path: `Paths` is a parameter for what an update with such a kind does, of which nothing is assumed.
--
-- Simplifications. A request reads the clock once. The ACL service, the file node and the signing of
-- receipts answer as functions of their arguments within one request. Two transactions do not
-- overlap: the driver serialises them.
--
-- Not modelled: the connection to MongoDB and its indexes, the start and the end of the coordinator
-- itself (cmd/coordinator), the timer that repeats the deleter, the metrics, and the generated mocks.
pub mod Prelude
pub mod Outcome
pub mod Docs
pub mod Mongo
pub mod Time
pub mod Paged
pub mod Keys
pub mod DeletionLog
pub mod SpaceStatus
pub mod AclEventLog
pub mod CoordinatorLog
pub mod AccountLimit
pub mod Coordinator
pub mod RpcHandler
pub mod Tests
pub mod Subscribe
pub mod Inbox
pub mod IdentityRepo
pub mod NodeConfSource
pub mod Config
pub mod Account
pub mod ConfApply
