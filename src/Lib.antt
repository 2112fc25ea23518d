-- ===== src/Lib.antt =====
-- A verification library for mediaferry, which copies camera cards to a NAS, joins recordings
-- that a camera has split, and sends the media to Immich servers. Two processes take part: the
-- broker (mountd), which alone is privileged and lends the volumes of cards as directory
-- descriptors, and the application, whose jobs work on a SQLite database.
--
-- - Base, Sql, Text: what the models share. Tables are lists of rows with a text key, an UPDATE
-- is a guarded rewriting of rows, and a fresh id, the clock and the answers of the kernel are
-- arguments.
-- - Profile: the records of app/src/mediaferry/core/profiles/model.py, and Matching, matching.py
-- beside it.
-- - Jobs: app/src/mediaferry/db/jobs.py, `JobStore` and `JobContext`. Every method is a function
-- of its name from the store to the store; Jobs.Life has the calls as data, so that a history is
-- a list of them. Jobs.Pulse is app/src/mediaferry/core/lease_pulse.py, and Jobs.Runner
-- app/src/mediaferry/jobs/runner.py, whose handlers are what they do to the table and how they
-- end.
-- - Merge: app/src/mediaferry/core/merge. Grouping is grouping.py, Streams is streams.py, Checks
-- and Verify are verify.py, with the functions of their names without the leading underscore.
-- Groups is app/src/mediaferry/db/merges.py, `MergeRepository`: the statuses, and Members with
-- the calls that make, replace, discard and forget groups.
-- - Uploads: Stacking and Decisions are app/src/mediaferry/core/uploads/stacking.py and
-- decisions.py. Records is app/src/mediaferry/db/uploads.py, `UploadRepository`: the conditional
-- updates that all else stands on, Moves for what an owner does, Claims for who becomes one, and
-- whether a record may still be sent, Requests for how records come to be, Stacks for what is
-- written of a stack, Stamps for what a recheck writes. They ask the jobs for the lease in the
-- same transaction.
-- - Protocol: protocol/src/mediaferry_protocol/messages.py, what broker and application say to
-- each other.
-- - Broker: mountd/src/mountd. Mounts is `MountManager`, Observe the generation of the volumes
-- and Server one connection of `BrokerServer`.
-- - Naming: app/src/mediaferry/core/naming.py. Publish: app/src/mediaferry/adapters/publisher.py,
-- `ArtifactPublisher`; Steps has what follows `staged`, Request what comes before it.
-- Fingerprint: app/src/mediaferry/core/fingerprint.py. At each step the process goes on, dies, or
-- an error of the system comes out of it; a death is an outcome of a call, and fuel is the number
-- of links that it lives to try: the theorems on `link` say how many are enough.
--
-- Times are microseconds as natural numbers, since the texts of the table sort as the instants
-- do, and the reads of the clock in one call give one value. Seconds, frames, bit rates and sizes
-- are whole numbers, so that comparisons with a tolerance are exact; the source computes them
-- with floats. Loops are recursions on their lists; only the two loops over the candidates of a
-- name, which has no end, run on fuel.
--
-- Not modelled are the foreign keys, sockets, threads and processes, the HTTP client, the web
-- routes, hashing and encryption, and the time zones of captured media; the order of rows of
-- equal rank, which SQLite leaves open, is that of the table. Other connections of the broker do
-- not run between the steps of one.
pub mod Base
pub mod Sql
pub mod Text
pub mod Profile
pub mod Jobs
pub mod Merge
pub mod Uploads
pub mod Naming
pub mod Publish
pub mod Fingerprint
pub mod Protocol
pub mod Broker
