-- ===== src/Lib.antt =====
-- LyttleNGINX: an nginx control plane whose nodes share one PostgreSQL database. This library models
-- the parts of it that decide: who leads the cluster, who may call an endpoint, which custom nginx
-- code is written, how certificate orders move, how private keys are stored, and which release of the
-- configuration nginx runs.
--
-- Parts, and the code they model (paths from the repository's root):
--
-- Cluster (src/distributed-lock/distributed-lock.service.ts). Cluster.Lease has a row of ClusterLease
-- and the three SQL statements of acquireLease, renewLease and releaseLease: the upsert with its
-- WHERE, and the two updates, each run at a database time. Cluster.Lease.Fencing runs any sequence of
-- statements and collects the rows that they return. Cluster.LeaseService has a node's own state
-- (heldLeases and the running intervals) and Cluster.LeaseService.Methods the methods: a method that
-- awaits its query is split where the answer is handled. Cluster.LeaseService.Leadership has a world
-- of many nodes with one table, and its steps. Cluster.AdvisoryLock has stringToLockId,
-- tryAcquireLock, releaseLock and withLock, with a log of what is asked of the database.
-- Cluster.Operations (src/distributed-lock/cluster-operations.service.ts) has the operations that a
-- node runs on itself and its peers: resolveTargets, the creation of the rows, executeOperation with
-- runLocalTarget and runRemoteTarget, and refreshOperation. The answers of the local action and of the
-- peers are given, and the address that buildClusterNodeUrl gives a target is part of the target.
-- Cluster.Heartbeat (src/distributed-lock/cluster-heartbeat.service.ts) has the table of the nodes beside
-- that of the leases (Flags and Reachable run its calls in any order from an empty table), and
-- Cluster.Operations.Waiting the wait for an operation.
--
-- Auth (src/auth/types/auth-role.ts, src/auth/guards/authorization.guard.ts and
-- src/auth/decorators/authorize.decorator.ts). Auth.Role has the roles, their hierarchy and
-- expandAuthRoles; Auth.Guard has canActivate with matchesRule, and the decorators' policies.
-- Auth.Claims and Auth.Token have the bearer tokens of src/auth/auth.service.ts, and Auth.Credentials
-- its settings and API keys, and the guard of src/auth/guards/api-key.guard.ts; admit runs the two guards
-- in the order of src/auth/auth.module.ts. Strings are native ones.
--
-- Nginx.CustomCode (src/nginx/nginx-custom-code.ts). Its children are the stages of
-- sanitizeNginxCustomCode: Tokenizer, Parser, Arguments and Validator, Renderer. Texts are lists of
-- UTF-16 code units.
--
-- Domains (src/utils/domain-utils.ts): normalizeDomain and the functions on lists of domains.
--
-- Certificate.Order (src/certificate/certificate-order.service.ts and
-- src/certificate/certificate-order.constants.ts): the tables, and in Service and Creation one
-- function for each operation that writes them. It uses Domains.
--
-- Certificate.KeyEncryption (src/certificate/private-key-encryption.service.ts): the envelope of a
-- stored private key, Provider its master key, Migration the pass over the stored keys.
--
-- Reloader (src/reloader/reloader.service.ts): the releases and the two symbolic links of the runtime
-- directory, with the release that nginx loaded last, and reloadConfig with its two deployments.
--
-- Prelude has the shared names: Boolean tests, lists, texts, maps, numbers and results. Tests has runs
-- and the theorems at concrete inputs.
--
-- Bounds and fuel. Two loops are on fuel. parseStatements of the custom code has one more than the number
-- of tokens, and every call is on fewer tokens; the wait for an operation has the milliseconds of its
-- timeout, and two, as every round takes one or more. withLock has its number of rounds. All other loops
-- are structural. A lock id keeps the 32-bit wrap-around. Times are milliseconds.
--
-- Assumed. One SQL statement, and one operation on the orders, is atomic. In the world of
-- Leadership, a call runs to the end of its handling of the answer before the next starts, so no reply
-- is handled late; acquisitions take the time to live of
-- the environment, and a belief is read by a clock that is not behind the database's. A numeric
-- argument is below 10 ^ 21, so that its text parses back to it. The lower case of texts is exact on
-- code units below 256. Among rows created at
-- one time, the first in the table counts as the newest. The id of a new order is on no event yet. The
-- peers of an operation are run in turn: their updates are of different rows. posix.normalize, domainToASCII,
-- isIP and SHA-256 are parameters, of which nothing is assumed, and so is the encryption where
-- Certificate.Order stores an artifact. The ciphers and codecs of Node are
-- records of parameters, Crypto and Jose, and the laws that theorems rely on are records of
-- hypotheses, IsSoundCrypto and IsSoundJose. A JSON number is whole or out of range. A key of a token's
-- JSON stands in it once. A call of the heartbeat service runs at one
-- time, and its statements succeed. A deployment takes place at one time and its links lead into the
-- releases' directory; the layout of a reload may fail at each of its steps, reading a link only with the
-- directories, and once a release is found valid, the writes of its metadata and links and the pruning
-- succeed. What a timer of waitForOperationToSettle takes is an argument: Node sets one of less than a
-- millisecond to a millisecond.
--
-- Not modelled: logging, the metadata column of a lease, the audit record of a denied attempt, the
-- messages of errors, the reports and DTOs, and the services that mostly read and write files,
-- processes and the network (certificates, alerts, metrics, proxies). Of the reloader, the
-- text of the configurations, and of authentication, the reports of its settings.
pub mod Prelude
pub mod Cluster
pub mod Auth
pub mod Nginx
pub mod Domains
pub mod Certificate
pub mod Reloader
pub mod Tests
