-- ===== src/Fileset/Publisher.antt =====
-- custom_components/cluster_state_sync/fileset.py: `Manifest`, `PublishResult`, `FilesetPublisher`.
use ha_cluster_state_sync.Prelude.{
  ℕ, suc, ◌+◌, pos, Option, none, some, List, [], ◌∷◌, ◌++◌, Text, codes, length,
}
use ha_cluster_state_sync.Dict.{Dict, sorted}
use ha_cluster_state_sync.Fileset.Json.{Json, integer, str, obj, Members, no_members, member}
use ha_cluster_state_sync.Fileset.Sealing.{
  Bytes, Primitives, derive_fileset_key, blob_aad, manifest_aad, seal,
}
use ha_cluster_state_sync.Fileset.Keyspace.{Keyspace}
use ha_cluster_state_sync.Fileset.Scan.{
  FileEntry, Directory, ScanResult, Scanned, scanned, too_large, scan_raised, scan,
}
use ha_cluster_state_sync.Fileset.Stored.{
  Write, Prune, Wrote, wrote, write_raised, write_fileset, prune_blobs,
}

pub record Manifest : Type 0 where
  pub generation : ℕ
  pub node : Text
  pub ts : Text
  pub entries : Dict FileEntry

-- With `sort_keys` the keys of every object are written in order.
abbrev pub entry_json : FileEntry → Json
entry_json e = obj (
    member (codes "mode") (integer (pos e.mode)) (
      member (codes "mtime_ns") (integer (pos e.mtime_ns)) (
        member (codes "ref") (str e.ref)
          (member (codes "size") (integer (pos e.size)) no_members))))

abbrev pub entry_members : Dict FileEntry → Members
entry_members [] = no_members
entry_members ((p, e) ∷ es) = member p (entry_json e) (entry_members es)

unfoldable pub manifest_json : Manifest → Json
unfolding sorted
manifest_json m = obj (
    member (codes "entries") (obj (entry_members (sorted m.entries))) (
      member (codes "generation") (integer (pos m.generation))
        (member (codes "node") (str m.node) (member (codes "ts") (str m.ts) no_members))))

unfoldable pub to_json : Primitives → Manifest → Text
unfolding manifest_json
to_json p m = p.dumps (manifest_json m)

pub record PublishResult : Type 0 where
  pub generation : ℕ
  pub files : ℕ
  pub blobs_written : ℕ
  pub bytes_written : ℕ
  pub pruned : ℕ
  pub skipped_reason : Option Text

pub record FilesetPublisher : Type 0 where
  pub node_id : Text
  pub secret : Text
  pub key : Bytes
  pub exclusions : List Text
  pub extra_paths : List Text
  pub max_bytes : ℕ
  pub generation : ℕ
  pub current : Dict FileEntry
  pub previous : Dict FileEntry
  pub last_result : Option PublishResult
  pub last_success_at : Option ℕ
  pub skipped_reason : Option Text

-- What a pass meets: the directory, the nonces of its seals in their order, the clock, the text of
-- the time, and how the write and the prune come out.
pub record Pass : Type 0 where
  pub directory : Directory
  pub urandom : ℕ → Bytes
  pub now : ℕ
  pub ts : Text
  pub write : Write
  pub prune : Prune

-- An exception of the scan or of the write leaves the pass.
pub data Published : Type 0 where
  result : PublishResult → Published
  raised : Published

abbrev pub refs_of : Dict FileEntry → List Text
refs_of [] = []
refs_of ((p, e) ∷ es) = e.ref ∷ refs_of es

abbrev pub total_length : Dict Bytes → ℕ
total_length [] = 0
total_length ((ref, b) ∷ bs) = length b + total_length bs

module _ (p : Primitives) where
  unfoldable pub fileset_publisher :
      (node_id secret : Text) (exclusions extra_paths : List Text) (max_bytes : ℕ)
      → FilesetPublisher
  unfolding derive_fileset_key
  fileset_publisher node_id secret exclusions extra_paths max_bytes = record {
    node_id = node_id;
    secret = secret;
    key = derive_fileset_key p secret;
    exclusions = exclusions;
    extra_paths = extra_paths;
    max_bytes = max_bytes;
    generation = 0;
    current = [];
    previous = [];
    last_result = none;
    last_success_at = none;
    skipped_reason = none;
  }

  -- `sealed_bodies`; the n-th seal of the pass takes the n-th nonce.
  unfoldable pub sealed_bodies : (urandom : ℕ → Bytes) (key : Bytes) → ℕ → Dict Bytes → Dict Bytes
  unfolding seal blob_aad
  sealed_bodies urandom key n [] = []
  sealed_bodies urandom key n ((ref, body) ∷ bodies) =
      (ref, seal p (urandom n) key body (blob_aad p ref)) ∷ sealed_bodies urandom key (suc n) bodies

  module _ {Server : Type 0} (kv : Keyspace Server) (namespace : Text) (w : Pass) where
    -- Nothing is published.
    abbrev pub refuse_too_large : FilesetPublisher → FilesetPublisher
    refuse_too_large f = record f {
      skipped_reason = some (codes "too_large");
      last_result = some (record {
        generation = f.generation;
        files = length f.current;
        blobs_written = 0;
        bytes_written = 0;
        pruned = 0;
        skipped_reason = some (codes "too_large");
      });
    }

    abbrev pub started : FilesetPublisher → FilesetPublisher
    started f = record f { generation = suc f.generation; skipped_reason = none }

    abbrev pub manifest_of : FilesetPublisher → Dict FileEntry → Manifest
    manifest_of f entries = record {
      generation = f.generation;
      node = f.node_id;
      ts = w.ts;
      entries = entries;
    }

    abbrev pub turned_over : Dict FileEntry → FilesetPublisher → FilesetPublisher
    turned_over entries f = record f { previous = f.current; current = entries }

    abbrev pub finished : ScanResult → Dict Bytes → ℕ → FilesetPublisher → FilesetPublisher
    finished r sealed pruned f = record f {
      last_result = some (record {
        generation = f.generation;
        files = length r.entries;
        blobs_written = length sealed;
        bytes_written = total_length sealed;
        pruned = pruned;
        skipped_reason = none;
      });
      last_success_at = some w.now;
    }

    abbrev answer_of : FilesetPublisher → Published
    answer_of f = elim f.last_result [ none ↦ Published.raised | some r ↦ Published.result r ]

    abbrev pub keep_of : FilesetPublisher → List Text
    keep_of f = refs_of f.current ++ refs_of f.previous

    abbrev pub after_write :
        ScanResult
        → Dict Bytes
        → FilesetPublisher
        → Wrote × Server
        → Published × (FilesetPublisher × Server)
    after_write r sealed f (write_raised, s) = (Published.raised, (f, s))
    after_write r sealed f (wrote, s) =
        let g = turned_over r.entries f in
        let (pruned, after) = prune_blobs p kv namespace w.prune (keep_of g) s in
        let h = finished r sealed pruned g in (answer_of h, (h, after))

    -- Each blob is sealed under its own reference, the manifest after them.
    abbrev pub publish_scanned :
        ScanResult → FilesetPublisher → Server → Published × (FilesetPublisher × Server)
    publish_scanned r f s =
        let sealed = sealed_bodies w.urandom f.key 0 r.bodies in
        let text = p.encode (to_json p (manifest_of f r.entries)) in
        after_write r sealed f (
          write_fileset p kv namespace w.write
            (seal p (w.urandom (length r.bodies)) f.key text manifest_aad) sealed s)

    abbrev pub after_scan :
        Scanned → FilesetPublisher → Server → Published × (FilesetPublisher × Server)
    after_scan scan_raised f s = (Published.raised, (f, s))
    after_scan too_large f s = (answer_of (refuse_too_large f), (refuse_too_large f, s))
    after_scan (scanned r) f s = publish_scanned r (started f) s

    abbrev pub scan_of : FilesetPublisher → Scanned
    scan_of f = scan p w.directory f.secret f.exclusions f.current (some f.max_bytes) f.extra_paths

    unfoldable pub async_publish :
        FilesetPublisher → Server → Published × (FilesetPublisher × Server)
    unfolding scan write_fileset prune_blobs sealed_bodies to_json seal
    async_publish f s = after_scan (scan_of f) f s
