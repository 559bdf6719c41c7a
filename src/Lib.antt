-- ===== src/Lib.antt =====
-- Faro (the repository's root) is a self-hosted DNS server: a Go program keeps a database of
-- records, devices and protections, renders it to a Corefile and to hosts files for CoreDNS, and
-- lets several servers follow one controller. This library models the parts of the Go program that
-- decide what DNS serves, who may change it, and how servers stay in step.
--
-- - Prelude, Strings, Encoding: shared tests, maps, results, and what the source uses of Go's
--     strings, sort, strconv, time and base64. A Go map is an association list whose operations
--     keep a key once; a Go string is its list of bytes. White space and letter case are those of
--     ASCII.
-- - Coredns (internal/coredns/coredns.go): Corefile has `corefileHostFiles`,
--     `validateGeneratedFiles` and `validateReplicaFiles`; Files has `snapshotFiles`,
--     `staleManagedFiles`, `replaceWithRollback` and `rollback` on a directory; Apply has `Apply`
--     and `applyFilesLocked` over the engine, the operating system and the interface `Transport`
--     of the hooks; Replica has `ApplyReplica` and the settings that it writes and puts back.
--     Contents, Order, Atomic, Success, Names, Complete, PutBack and Restored hold the proofs.
-- - Policy (internal/coredns/coredns.go and internal/coredns/diagnostics.go): the tables that the
--     DNS policy is read from, Hosts with `blockHostsForProtection` and `localHosts`, Settings
--     with `renderStateForSettings`, Render with `render`, `protections` and the file sets,
--     Explain with `ExplainDomainForClient`, Temporal with the tick of `RunTemporalReloads`.
--     HostsFile is the reader that CoreDNS has for a hosts file; Blocks, Agreement, Serving,
--     Limits and RuntimeFiles hold the proofs.
-- - Redundancy (internal/redundancy): Types has the tables and the memory of the manager, Roles
--     the snapshots of the controller and `Leave`, Crypto the signatures and envelopes, Pairing
--     `StartPairing` and `AcceptPair`, Nodes `AuthenticateNodeRequest` and what the controller
--     does for its replicas, Snapshot the encoding, Sync `Join` and `syncReplica`. Membership,
--     Handlers, Leaving, Following, Reachable, Codes, Replay and Signing hold the proofs.
-- - Blocklists (internal/blocklists/blocklists.go): the parser of a list; Refresh has `Refresh`
--     and `RefreshAndApply` on the tables, Due one automatic pass and the resolvers of a
--     download. Lines, Restore and Pass hold the proofs.
-- - Doh (internal/dohproxy): the catalog and the configuration of the encrypted gateway; Gateway
--     has `ReloadConfig` and `RestorePrevious` on the two generations of clients, Hooks makes
--     them the `Transport` of `Apply` as cmd/faro-api/main.go does, Messages has the wire format,
--     Exchange the answer to a query. Generations and Answers hold the proofs.
-- - Auth (internal/auth/manager.go): Failures has the login throttle, Sessions the accounts and
--     sessions, Handlers the HTTP handlers and `Require`. Bounds, Steps, Lockout, Blocked, Access
--     and Revocation hold the proofs.
-- - Devices (internal/devices/identity.go): the transaction of `ObserveAddress` and the merge of
--     devices. Protection and Observe hold the proofs.
-- - ProtectionTime (internal/protectiontime): the weekly window of a protection; Weekly compares
--     it with a description by minutes of the week.
-- - QueryLog (internal/querylog/querylog.go): the loop of `readOpenFile`, byte by byte, with its
--     batches and its checkpoint; Entries has `parseLine` and `prepareEntry`. Lines and Once hold
--     the proofs.
-- - Retention (internal/retention/retention.go): `ConfiguredDays` and `deleteExpiredRows`;
--     Batches has the proofs.
-- - Domains (internal/db/db.go): `NormalizeDomain` and `NormalizeRecord`; Safety has the proofs.
--
-- The parts meet in two places. A controller's snapshot is the generated set that `Apply`
-- installed, and a replica installs it by `ApplyReplica`, which is a parameter of Sync. A replica
-- that leaves runs `Apply` again, whose result is a parameter of `leave`.
--
-- State is passed explicitly. A mutex of the source (`applyMu`, `operationMu`, `pairingMu`, the
-- mutex of the throttle) makes a call one step, and so does a transaction; histories of steps are
-- lists of calls. What a call meets outside (whether a statement, a file operation, a random
-- source or a peer succeeds, and the clock) is a record of the model that the theorems quantify
-- over. Times are numbers of nanoseconds since Go's zero time, columns hold whole seconds. Loops
-- are structural recursion on the list that they range over, but for `deleteExpiredRows`, which
-- has fuel: one statement more than the table has rows is enough, as its theorem shows.
--
-- Parameters: CoreDNS and its Caddyfile parser, SHA-256, HMAC, X25519, HKDF, AES-GCM, bcrypt,
-- gzip, JSON, `net.ParseIP`, the database of time zones, the master key of internal/secrets, and
-- the parser of old log lines. What is assumed of them is `IsLawful` of Redundancy.Snapshot for
-- gzip and JSON, and in Redundancy.Signing that a signature has 32 bytes; the laws of the hooks of
-- `Apply` are fields of `Transport`.
--
-- Not modelled: SQL beyond the statements named above, HTTP transport, name lookups, the user
-- interface, the evidence that tells devices apart, backups, the rotation of the query log, the
-- HTTP client of block list downloads, upstream probes, and the sockets, TLS and HTTP of the
-- encrypted gateway.
pub mod Prelude
pub mod Strings
pub mod Encoding
pub mod Coredns
pub mod Policy
pub mod Redundancy
pub mod QueryLog
pub mod Blocklists
pub mod Doh
pub mod Devices
pub mod Auth
pub mod ProtectionTime
pub mod Retention
pub mod Domains
