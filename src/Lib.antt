-- ===== src/Lib.antt =====
-- A verification library of reolink-station, a NestJS server that lets users share surveillance
-- cameras, watch them live and browse their recordings over SFTP.
--
-- The parts of the program and the files that model them:
-- - src/sharing/camera-access.service.ts, camera-access.guard.ts, sharing.service.ts: Sharing.antt.
--   Who may do what with a camera profile. `access`, `can_activate`, `grant` and `revoke` are
--   functions of the tables; `Entitled` is the rule that they implement.
-- - src/crypto/crypto.service.ts: Crypto.antt, over the primitives of node:crypto, which are a record of
--   functions with the round trips they document. Tests/ZeroCrypto.antt is one such record.
-- - src/camera-profiles/camera-profiles.service.ts and camera-profile.masking.ts: CameraProfiles.antt.
--   The profiles with their encrypted secrets. It calls Crypto and Sharing.
-- - src/invites/invites.service.ts: Invites.antt. `redeem` is cut at its `await`s, and Invites/Steps.antt
--   lets any number of calls interleave. Tests/ListUpdates.antt is TypeORM's `update` over lists.
-- - src/recordings/sftp-windowed-read.ts: Recordings/WindowedRead.antt. The variables of the closure
--   are the fields of `Reader` and its callbacks are functions on it; WindowedRead/Steps.antt is the
--   step relation of one transfer with its environment.
-- - src/recordings/recordings.cache.ts: Recordings/Cache.antt, with the clock as an argument.
-- - src/recordings/path-safety.ts: Recordings/PathSafety.antt. `resolve_safe` over a record for node's
--   `path.posix`; PathSafety/Place.antt is the place that a path names, by its segments.
-- - src/recordings/recordings.service.ts: Recordings/Service.antt, over Recordings/Remote.antt, where
--   the SFTP servers are a record of operations on a state of their own and the state of the service
--   has a record of the calls. It calls PathSafety, Cache and WindowedRead, and withConnection of
--   sftp-pool.service.ts.
-- - src/recordings/sftp-pool.service.ts: Recordings/Pools.antt, the two maps of the service. A pool is
--   what its factory closes over; SHA-256 is a parameter.
-- - src/recordings/recordings.controller.ts: Recordings/Range.antt is `parseRange`, and
--   Recordings/Response.antt is the answer of the handler `file`, which starts a transfer.
-- - src/auth: Auth.antt, over the packages argon2 and @nestjs/jwt, which are a record of functions.
-- - src/live/ptz.ts and mqtt-ptz.transport.ts: Live/Ptz.antt and Live/Transport.antt, one call of `send`
--   with its timer and its listener.
-- - src/camera-profiles/camera-profiles.controller.ts and src/sharing/sharing.controller.ts:
--   Controllers.antt, the handlers with the guard in front of them. `serve` is one request of a user.
--   src/recordings/recordings-manager.controller.ts: Controllers/Manager.antt, over the service too.
-- - web/src/components/live/PtzControls.tsx: Web/PtzControls.antt. web/src/lib/api.ts and
--   web/src/middleware.ts: Web/Api.antt. web/src/components/recordings/RecordingsBrowser.tsx and
--   ManagerBar.tsx: Web/RecordingsBrowser.antt and Web/ManagerBar.antt. The states of a component and
--   what its closures share are the fields of a record, its handlers are functions on it, and
--   RecordingsBrowser/Reach.antt lets the answers to its requests come in any order.
-- - Entities, Tables, Database and Http hold what the parts share: the rows of src/users/user.entity.ts,
--   src/sharing/camera-share.entity.ts and src/camera-profiles/camera-profile.entity.ts, the
--   repositories of TypeORM, and the HTTP exceptions.
-- - Prelude.antt holds lists, tests on numbers and JavaScript's `Map`; Tests.antt the runs on examples.
--
-- The database is not part of the repository: a repository is a record of the operations that the
-- source calls, with the laws of a table, over lists of rows (Tables.antt), and the column type uuid
-- compares spellings by a relation that is an equivalence. Tests/ListTables.antt is one such
-- database. The SFTP server and the HTTP response are the environment of the transfer: any order of
-- answers, short reads, errors, a full stream, its drain and its end are steps.
--
-- The loops of the transfer run on fuel. `pump` gets `window`, since each round puts one more read in
-- flight, and `emitReady` gets the number of chunks that it holds, since each round removes one.
-- The walk of `prune` over the directories gets its fuel from the caller: the depth of the tree is up
-- to the server, and for a server with a cycle of directories the source does not end either.
--
-- Numbers are natural ones. File offsets are below 2 ^ 53 in the source, where JavaScript's numbers
-- are exact. The inclusive `end` of a range is modelled by `stop`, one more.
--
-- Not modelled: the connections inside the pools of the package generic-pool;
-- src/live/live-config.service.ts and live.controller.ts; the markup and the forms of the client; the
-- modules, the configuration and the request bodies, which are declarations for NestJS and
-- class-validator. Of `send` the client that all calls share is left out, of the login the attributes
-- of the cookie, of the listings of the client the orders in which they are shown and the commit that
-- React makes with a changed directory and the entries before, until the effect has run.
pub mod Auth
pub mod CameraProfiles
pub mod Controllers
pub mod Crypto
pub mod Database
pub mod Entities
pub mod Http
pub mod Invites
pub mod Live
pub mod Prelude
pub mod Recordings
pub mod Sharing
pub mod Tables
pub mod Tests
pub mod Web
