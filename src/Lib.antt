-- ===== src/Lib.antt =====
-- A verification of ha-cluster-state-sync, the Home Assistant integration that keeps two nodes in
-- one cluster: the lease that elects the leader, the host-side promoter and the integration, which
-- both act on it, the maintenance hold that suspends failover, the gate on recorder and
-- automations, and the replication of the configuration to the follower.
--
-- The parts (paths from the repository's root):
-- - Prelude, Str: numbers, lists, texts as lists of code points, Python's `str` methods.
-- - Store: the Redis or Valkey server. It is not part of the repository, so it is a parameter: a
--   record of commands, with the documented behaviour of keys and times to live as laws.
--   Store/Mock is one server that meets the laws, on which the tests run.
-- - Lease: custom_components/cluster_state_sync/lease.py. Lease/Scripts has the four Lua scripts,
--   Lease/Cluster any number of nodes that run them in any order, with waits, lost replies and
--   writes to other keys; Lease/Exclusion is about who counts on the lease. What a node counts on is
--   no state of the source: it is told from the replies that have reached the node.
-- - Promoter: custom_components/cluster_state_sync/scripts/cluster_promoter.py. Promoter/World has
--   what a tick reads and writes, Promoter/Monad its exceptions and commands, Promoter/Keys, State,
--   Holds and Health the helper functions, Promoter/Tick `run`, cut at its branches. The other
--   modules are about a tick: Frames and Unheld (what the questions before the branches leave
--   alone), Promotion, Standby, Demotion, Maintenance, Transition, Ends. Promoter/Commands has the
--   operator's commands, Promoter/Adoption and Promoter/Console what they do.
-- - Hold: custom_components/cluster_state_sync/hold.py. Hold/Format has the text of a hold,
--   Hold/Files the flag file, Hold/RoundTrip and Hold/Agreement read the text back with the parsers
--   of hold.py and of the promoter, Hold/Auto is about the file operations.
-- - Leadership: Leadership/Backend has the lease and the cluster-wide hold of
--   custom_components/cluster_state_sync/backend.py, Leadership/Monitor the `LeadershipMonitor` of
--   custom_components/cluster_state_sync/leadership.py, which asks Backend and the flag file;
--   Leadership/Answers is about its answers, Leadership/Shared about the hold between nodes.
-- - Resp: custom_components/cluster_state_sync/scripts/resp.py, `_encode_command` and `RespReader`.
--   Resp/Reader has the reader over any source, Resp/Chunks compares a source in chunks with all
--   the bytes at once, Resp/Fuel bounds the fuel, Resp/Encoding writes commands.
-- - Dict: Python's `dict` with text keys and `sorted`; Dict/Order is about sorting again.
-- - Fileset: the configuration that the leader publishes and the follower stages. Fileset/Sealing
--   has custom_components/cluster_state_sync/crypto.py, over the primitives of `cryptography`,
--   `hashlib`, `base64` and `json`; Fileset/Scan and Fileset/Publisher have fileset.py of the same
--   folder, Fileset/Stored the fileset of backend.py over the server of Fileset/Keyspace;
--   Fileset/Parsed, Fileset/Paths and Fileset/Pull have scripts/fileset_pull.py. Of the others
--   Keys, Backed, Scanned, Published, Passes and History are about what the server holds for a
--   publisher, Opening, Fetching, Building, Delivery and Replication about a pass and a pull after
--   it, Contents and Atomic about every end of a pull: Contents tells what a path of the staged tree
--   holds from the manifest and the server alone. Fileset/Mock and Fileset/Codec are a server and
--   primitives for the tests.
-- - Includes: includes.py of the same folder, the files that a configuration includes;
--   Includes/Reach has what a file leads to, Includes/Covered is about the whole scan.
-- - Identity: scripts/fileset_identity.py of the same folder, which keeps a node's own config
--   entries over the swap of `.storage`: Identity/Kept is about the fields of an entry,
--   Identity/Swap about capture, swap and restore in their order and about the ends of a restore.
-- - Sentinel: util.py of the same folder, `parse_sentinel_hosts`; Sentinel/Ports is about its results.
-- - Gating: custom_components/cluster_state_sync/gating.py, `ServiceGate`; Gating/Undo is about
--   what it has switched off.
--
-- How the model corresponds to the code. A tick is a function from a world to a result and a
-- world. The world holds the server, the files of the node (with modification times and, for text
-- files, whether they are UTF-8), and what the outside answers: the HTTP probe, Docker, and which
-- file operations the system refuses. Each command to the server meets one entry of `links`: it
-- works, it is refused, or its reply is lost after the server has run it; past the list all work.
-- `ValkeyError`, `OSError` and all else are exceptions; `run` catches the first two, as the source
-- does. `plan` is `run` up to the notify script, `act` the rest. A notify script is a parameter
-- that may do anything to the world, with any exit code, negative ones of signals too.
--
-- The integration's calls of the server meet `links` likewise, and any exception is a no there. The
-- flag file of a hold is a regular file if it is there; a write of it is done, refused, or cut off
-- after a part. The gate's service calls succeed or fail as a list of replies says.
--
-- A pass of the publisher meets the directory as functions of a path (`stat` and `read_bytes` may
-- fail), the nonces that `os.urandom` gives, and how the write and the prune come out: refused, cut
-- off after any subset of the blobs, or with a reply lost. `sort_keys` is written out:
-- `manifest_json` has the keys of its objects in order. A pull meets the refusals of `Host`. The
-- staging directory holds whole trees, a file of which has a path, a content and the bits of its
-- mode; the order of mkdir, rename and unlink is the source's. The refusals of one file (of its
-- folder, its content and its mode) are one, after which the file counts as not written. A file's size, mode and time are
-- natural numbers.
--
-- A config entry has the fields that fileset_identity.py reads, typed as Home Assistant writes
-- them, and the others as a dict. A file is absent, not to be read, no such store, or one. The store
-- is written through the scratch file, and each step (`stat`, `open`, the dump, `chmod`, `os.replace`,
-- and the `unlink` after a refusal) may be refused; of the captured entries' file the mode is left
-- out. An exit code stands for the exceptions that `main` catches.
--
-- Bounds. Local instants and windows are in microseconds, times to live in milliseconds, as natural
-- numbers without bound, as Python's are. An age is compared as `now < mtime + window`, which also
-- serves a clock that has gone back. The local clock stands still within a tick, but for what the
-- notify script does. Two definitions take fuel. `loop` of Includes has enough with one more than
-- what all the files of the configuration lead to. `read_reply` takes it for arrays in arrays,
-- where fuel beyond the number of bytes is enough; Python's own limit on recursion is not modelled.
--
-- The keys of the server are those that const.py and the promoter both render; Promoter/Keys has
-- them.
--
-- Parameters of Fileset, with what the proofs use as laws: AES-GCM opens what it sealed under the
-- same associated data and its output is not empty, base64 and `json` read back what they wrote,
-- SCAN lists the keys with a prefix. HKDF, HMAC, SHA-256, `fnmatch` and `int` of a text are without
-- laws, so two contents may share a reference. Nonces are twelve bytes; that they are fresh is not
-- stated. The result of `includes.scan` is a parameter there. Not modelled there:
-- `Manifest.from_json`, which nothing calls, symbolic links inside the staging directory, and the
-- command line.
--
-- Parameters, not modelled: `datetime.fromisoformat` and `isoformat`, `json.dumps` of the
-- heartbeat, `int` and `%d` of bytes, UTF-8, the notify scripts, the texts that are printed, and
-- the tests whether a file exists, which always answer.
pub mod Prelude
pub mod Store
pub mod Lease
pub mod Str
pub mod Dict
pub mod Fileset
pub mod Sentinel
pub mod Includes
pub mod Identity
pub mod Promoter
pub mod Gating
pub mod Hold
pub mod Leadership
pub mod Resp
