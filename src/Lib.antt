-- ===== src/Lib.antt =====
-- Object Drive (Go): a server that keeps encrypted objects in folders, checks the permissions of a
-- caller on them, and streams their contents.
--
-- The parts that are modelled, and where:
-- Crypto.antt: crypto/crypto.go. ApplyPassphrase and DoMAC, over a parameter for SHA-256.
-- Models/: metadata/models. AACFlatten (Models/Flatten), ODAcmGrantee with the reading and printing
--   of resource names (Models/Grantee), ODObjectPermission with the wrapping of the file key and the
--   MAC (Models/Permission).
-- Access.antt: server/isUserAllowedForObjectACM.go. isUserAllowedTo walks the object's permissions
--   with the master key that wraps the keys of Models/Permission.
-- Stream.antt: the range requests of server/getObjectStream.go over the CTR cipher of
--   crypto/crypto.go: extractByteRange, CreateIV, adjustIV, rangeCopy, DoCipherByReaderWriter and the
--   part of getAndStreamFile between the headers and the bytes written.
-- Paging.antt: dao/paging.go and mapping/PagingRequest.go; Paging/Request: protocol/PagingRequest.go,
--   from the query string or the decoded body to the limit and offset of the database query.
-- Cache.antt: ciphertext/cachepurge.go, a walk of the purge over the files of the ciphertext cache.
-- Drain.antt: ciphertext/cache.go on the disk of Cache.antt, with beginUploadTimed of
--   server/uploadDownload.go: how a file is uploaded, written back and recached (Drain/Recache), and the
--   check of the master key (Drain/Canary). A node is a disk and a permanent storage; a call is one
--   step, and whatever may fail in it is an argument. Recache's tries are the source's four.
-- Pull.antt: ciphertext/puller.go, the ciphertext read in chunks from the local cache, a peer, or the
--   permanent storage.
-- Tree.antt: the rows of the table of objects, with GetObject, UpdateObject (and its trigger),
--   IsParentIDADescendent and GetParents of dao/; Tree/Move: moveObjectRaw of server/moveObject.go, whose
--   checks of permissions are those of Access.antt, and IsUserOwner of auth/aacoff.go.
-- Trash.antt: dao/dao.DeleteObject.go, ExpungeObject, UndeleteObject (Trash/Restore) and
--   ExpungeDeletedByUser (Trash/Empty) on the rows of Tree.antt, and their handlers in server/
--   (Trash/Handlers). Trash/Writes relates databases by the updates of rows between them; Trash/Sound
--   takes the handlers and moveObjectRaw as the steps of one database.
-- Reading.antt: getObject of server/getObject.go over Tree.antt, with the breadcrumbs of its parents, and
--   authHTTPErr.
-- Ownership.antt: the checks of server/changeOwner.go, before the object changes.
-- Protocol.antt: protocol/Permission.go and protocol/CallerPermission.go, permissions as lists of
--   resources, with the flattened names of Models/Flatten.
-- Mapping.antt: mapping/ODPermissionToPermission.go, between the permissions of Models/Permission and the
--   resources of Protocol.antt, with GetResourceName of metadata/models/ODObjectPermission.go.
-- Performance.antt: performance/performance.go, the ring in which the begins and ends of jobs are
--   counted; its loops are on rounds.
-- Common.antt: shared lists, texts, integers and results. Tests/: the theorems at concrete inputs.
--
-- How the code is read. A Go string or byte slice is a list of bytes; the functions that look at
-- letters are those of ASCII, so for texts outside ASCII the model says nothing of ToLower and
-- TrimSpace. Integers of Go are natural numbers or the integers of Common/Int, away from overflow.
-- A reader is the list of bytes still to be read. Errors are values; the log.Fatal of
-- ApplyPassphrase is `none`, and a panic a result of its own. SHA-256, the AES block function,
-- sort.Strings, the MD5 of the trigger, the random numbers and the reader that NewPuller opens are
-- arguments, with their documented properties as fields or hypotheses. Loops are recursions on
-- lists; adjustIV's loop over an int64 count has eight rounds of fuel, which is what a count below
-- 2^64 takes, and GetPageCount's loop two, since a quotient falls short of its page count by at
-- most one; DeleteObject takes fuel for its recursion, and rounds for its loop over pages, one more
-- than there are objects that are not deleted; a walk along parents takes as much fuel as the chain
-- has objects, and one more; NewPuller's retries count down the source's twenty attempts, with what the sources hold at each
-- of them.
--
-- Not modelled: creating, updating and sharing of objects, the change of an object by changeOwner, the
-- bulk handlers, the dates, types and archive of the rows, the HTTP routing, audit and event publishing, logging, the AAC client, the SQL text and the database driver, the S3, Kafka,
-- ZooKeeper and CloudWatch clients, command line tools, and the Go client; the manifest of the
-- components says why.
mod Common
pub mod Crypto
pub mod Models
pub mod Access
pub mod Protocol
pub mod Stream
pub mod Paging
pub mod Cache
pub mod Drain
pub mod Pull
pub mod Tree
pub mod Trash
pub mod Reading
pub mod Ownership
pub mod Mapping
pub mod Performance
mod Tests
