-- ===== src/Fileset/Stored.antt =====
-- The fileset on the server. custom_components/cluster_state_sync/backend.py, `RedisBackend`:
-- `write_fileset`, `prune_blobs`, `_ref_of`.
use ha_cluster_state_sync.Prelude.{
  ℕ, ◌+◌, Bool, true, false, Option, none, some, List, [], ◌∷◌, Text, length, drop, if◌then◌else◌,
}
use ha_cluster_state_sync.Dict.{Dict, contains}
use ha_cluster_state_sync.Fileset.Sealing.{
  Bytes, Primitives, fileset_manifest_key, fileset_blob_key,
}
use ha_cluster_state_sync.Fileset.Keyspace.{Keyspace}

-- How a write of the fileset comes out. The pipeline of blobs is no transaction: where it fails, each
-- blob has been stored or not. A manifest is refused, or stored with its reply lost.
pub data Write : Type 0 where
  done : Write
  not_connected : Write
  blobs_failed : (stored : List Bool) → Write
  manifest_refused : Write
  manifest_lost : Write

-- How a prune comes out: an exception before the deletion, in place of it, or of its reply.
pub data Prune : Type 0 where
  done : Prune
  scan_failed : Prune
  reply_lost : Prune

pub data Wrote : Type 0 where
  wrote : Wrote
  write_raised : Wrote

abbrev pub is_some : {A : Type 0} → Option A → Bool
is_some none = false
is_some (some a) = true

module _ (p : Primitives) {Server : Type 0} (kv : Keyspace Server) (namespace : Text) where
  abbrev pub set_blob : Text → Bytes → Server → Server
  set_blob ref sealed = kv.set (fileset_blob_key namespace ref) (p.b64encode sealed)

  abbrev pub set_blobs : Dict Bytes → Server → Server
  set_blobs [] s = s
  set_blobs ((ref, sealed) ∷ blobs) s = set_blobs blobs (set_blob ref sealed s)

  -- The blobs that a failing pipeline has stored.
  abbrev pub set_some : List Bool → Dict Bytes → Server → Server
  set_some stored [] s = s
  set_some [] (blob ∷ blobs) s = s
  set_some (b ∷ stored) ((ref, sealed) ∷ blobs) s =
      set_some stored blobs (if b then set_blob ref sealed s else s)

  abbrev pub set_manifest : Bytes → Server → Server
  set_manifest manifest = kv.set (fileset_manifest_key namespace) (p.b64encode manifest)

  -- Without blobs there is no pipeline to fail.
  unfoldable pub write_fileset : Write → Bytes → Dict Bytes → Server → Wrote × Server
  unfolding fileset_manifest_key fileset_blob_key
  write_fileset Write.not_connected manifest blobs s = (write_raised, s)
  write_fileset (Write.blobs_failed stored) manifest [] s = (wrote, set_manifest manifest s)
  write_fileset (Write.blobs_failed stored) manifest (blob ∷ blobs) s =
      (write_raised, set_some stored (blob ∷ blobs) s)
  write_fileset Write.manifest_refused manifest blobs s = (write_raised, set_blobs blobs s)
  write_fileset Write.manifest_lost manifest blobs s =
      (write_raised, set_manifest manifest (set_blobs blobs s))
  write_fileset Write.done manifest blobs s = (wrote, set_manifest manifest (set_blobs blobs s))

  unfoldable pub ref_of : (key prefix : Text) → Text
  ref_of key prefix = drop (length prefix) key

  -- The keys of the blobs that `keep` does not name.
  unfoldable pub doomed : List Text → List Text → List Text
  unfolding ref_of contains fileset_blob_key
  doomed keep [] = []
  doomed keep (key ∷ keys) =
      let rest = doomed keep keys in
      if contains (ref_of key (fileset_blob_key namespace [])) keep then rest else key ∷ rest

  -- DEL of several keys, which counts those that were there.
  unfoldable pub delete : List Text → Server → ℕ × Server
  delete [] s = (0, s)
  delete (key ∷ keys) s =
      let (n, after) = delete keys (kv.del key s) in
      ((if is_some (kv.get key s) then 1 else 0) + n, after)

  abbrev pub doomed_in : List Text → Server → List Text
  doomed_in keep s = doomed keep (kv.scan (fileset_blob_key namespace []) s)

  unfoldable pub prune_blobs : Prune → List Text → Server → ℕ × Server
  unfolding doomed delete
  prune_blobs Prune.done keep s = delete (doomed_in keep s) s
  prune_blobs Prune.scan_failed keep s = (0, s)
  prune_blobs Prune.reply_lost keep s = (0, (delete (doomed_in keep s) s).1)
