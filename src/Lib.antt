-- ===== src/Lib.antt =====
-- Verification library of maintainerd-secret, a vault that keeps versioned secrets in PostgreSQL,
-- encrypted under root keys from outside the database.
--
-- The program. Requests reach internal/api through internal/httpapi and internal/grpcserver, behind
-- the limiter of internal/platform/middleware; internal/store holds the operations on the database,
-- most of them in one transaction, over the statements of internal/storage; internal/crypto seals the
-- values; internal/leader elects the one replica that runs the background workers.
--
-- What models what.
-- * Secrets models internal/store/secrets.go on the tables secrets and secret_versions
--   (Secrets.Rows, one function per statement of internal/storage): PutSecret, getVersion and
--   PruneVersions, and in Secrets.Removal DeleteSecret, RestoreSecret and DestroySecret. It seals
--   and opens values with Crypto. Secrets.Prune has the invariant of the tables, Secrets.History
--   the histories of operations.
-- * Rewrap models RewrapAll of internal/crypto/rewrap.go on the store of
--   internal/store/rootkeys.go: the rows of secret_versions and root_keys, and the loop over
--   batches.
-- * Paths models internal/store/paths.go: NormalizePath with what it uses of Go's strings and path
--   packages (Paths.Strings), the patterns of names (Paths.Names), SplitPath, JoinPath,
--   IsAtOrUnder, SubtreePattern beside SQL's LIKE (Paths.Like), and the resource path of a secret
--   (Paths.Mrn). A text is a list of code points; the source counts bytes, which is the same for
--   every text that its patterns accept.
-- * Folders models the folders of internal/store/service.go on the tables folders and secrets of
--   one environment: CreateFolder with ensureFolderPath, and MoveFolder with its three statements;
--   Folders.Filing has DeleteFolder, and RestoreSecret as far as the secret's place goes. A write
--   that breaks the unique index of paths is refused. Folders.Growth has the shape of the tree.
-- * Webhooks models the notifier's attempts on one endpoint (deliver of
--   internal/webhook/webhook.go, in Webhooks.Inline) and the re-drive worker of
--   internal/webhook/redrive.go (Tick, attemptOne, post, Backoff) over internal/store/webhooks.go
--   and the tables webhook_endpoints and webhook_deliveries (Webhooks.Rows). A tick is given the
--   clock of its claim and, for each attempt, the clock, what the receiver does and which calls of
--   the database answer. A claimed row whose tenant cannot be read, which the source skips, is a
--   turn whose read fails. Webhooks.Doubles has the rounding of float64 in which delays are
--   doubled.
-- * Rotation models the specifications and the generator of internal/rotation/generator.go, with
--   Go's hex and base64 encodings and its slices, which panic past their end; a panic and an error
--   are both no value.
-- * Lease models internal/lease/lease.go (Evaluate, ResolveTTL) and internal/store/leases.go: the
--   table secret_leases is a list of rows (Lease.Rows, one function per statement), and Lease.Read
--   has AuthorizeLeasedRead with its transaction, SetSecretLeasePolicy and RevokeSecretLeases. A
--   history (Lease.History) is a list of such calls.
-- * Imports models internal/store/imports.go: the table scope_imports (Imports.Rows), CreateImport
--   with its cycle check, DeleteImport, SetImportEnabled and the resolver of imported folders.
-- * Limiter models internal/platform/middleware/rate_limit.go and rate_limit_store.go. Allow frees
--   its lock while it asks the shared store, so it is allow_begin and allow_finish; Limiter.Fleet
--   puts replicas side by side, with the store's commit and the return of its answer as steps of
--   their own.
-- * Leader models internal/leader/leader.go and postgres.go: one function per method of the elector
--   and of the lock's session. Ping only asks whether the session lives; a session of the model
--   lives as long as it holds the lock, as postgres.go argues, since nothing else frees the lock.
--   Leader.Cluster has the steps of several replicas and the end of a session.
-- * Crypto models internal/crypto/envelope.go (the encoding of an identity, Seal, Open, Rewrap),
--   keyring.go and the AES root key of rootkey.go. AES-GCM and SHA-256 are an interface, Suite,
--   whose laws are the record IsSuite; RootKeyProvider is the interface of the source, with the law
--   IsProvider, which the AES root key meets.
-- * Base has the shared helpers. Examples runs the models on concrete inputs.
--
-- Conventions. Times and identifiers are natural numbers: nanoseconds for durations of Go, and row
-- identifiers as the sequences give them. A signed number whose values that are not positive the
-- code treats alike is a natural number whose 0 stands for every such value. An error is a value; a
-- transaction that fails leaves its tables as they were. INT columns keep their maximum where an
-- operation can reach it. Randomness, clocks and the reachability of the database are arguments.
--
-- Bounds and fuel. The walk over imports takes rounds up to the depth bound of the source
-- (maxImportDepth), which is the fuel. The loop of RewrapAll has one round more than there are rows
-- under the old key, which is enough since each full batch moves a row. The rounding to
-- float64 doubles the weight of the last digit up to eleven times, which reaches every number below
-- 2 ^ 64. Everything else is structural recursion.
--
-- Not modelled. Transport, configuration, logging and audit; the text of messages; generated code
-- except for the statements above; the resolution of a tenant, project and environment, which the
-- modelled operations take as done. Of internal/crypto the external key services and the registry
-- of providers are left out, and so are the web console and the migrations' DDL except for the
-- constraints that operations rely on.
mod Base
pub mod Lease
pub mod Imports
pub mod Limiter
pub mod Leader
pub mod Crypto
pub mod Secrets
pub mod Rewrap
pub mod Paths
pub mod Folders
pub mod Rotation
pub mod Webhooks
mod Examples
