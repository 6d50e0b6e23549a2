-- ===== src/Fileset/Replication.antt =====
-- A pass of the leader that is stored, then a pull of the follower.
use ha_cluster_state_sync.Prelude.{
  ℕ, suc, ◌≡◌, sym, ap, ◌∙◌, subst, true, ℤ, Option, none, some, List, Text, length,
}
use ha_cluster_state_sync.Dict.{lookup, sorted}
use ha_cluster_state_sync.Fileset.Sealing.{
  Primitives, PrimitiveLaws, blob_ref, fileset_manifest_key,
}
use ha_cluster_state_sync.Fileset.Keyspace.{Keyspace, KeyspaceLaws}
use ha_cluster_state_sync.Fileset.Scan.{ScanResult, scanned}
use ha_cluster_state_sync.Fileset.Stored.{Write, Prune, write_fileset, prune_blobs}
use ha_cluster_state_sync.Fileset.Publisher.{
  FilesetPublisher, Pass, started, turned_over, keep_of, manifest_of, after_write, after_scan,
  scan_of, async_publish,
}
use ha_cluster_state_sync.Fileset.Keys.{prune-manifest}
use ha_cluster_state_sync.Fileset.Backed.{IsBacked}
use ha_cluster_state_sync.Fileset.Scanned.{IsGood}
use ha_cluster_state_sync.Fileset.Published.{
  IsSound, sealed, stored, manifest, announced, announced-IsWritten, stored-IsSound, entries_stored,
}
use ha_cluster_state_sync.Fileset.Passes.{prune-IsSound, scan_of-IsGood}
use ha_cluster_state_sync.Fileset.Pull.{Staged, root, restore_fileset}
use ha_cluster_state_sync.Fileset.Building.{is_placeable, Delivers}
use ha_cluster_state_sync.Fileset.Delivery.{
  willing, staged_at, IsRestored, restore_fileset-Delivers,
}

module _ (p : Primitives) (plaws : PrimitiveLaws p) (int_of_text : Text → Option ℤ)
    {Server : Type 0} (kv : Keyspace Server) (laws : KeyspaceLaws kv) (namespace : Text)
    (staged_dir : List Text) (w : Pass) (twelve : (n : ℕ) → length (w.urandom n) ≡ 12) where
  -- No prune takes the manifest away.
  prune_manifest :
      (how : Prune) (keep : List Text) (value : Text) (s : Server)
      → kv.get (fileset_manifest_key namespace) s ≡ some value
      → kv.get (fileset_manifest_key namespace) (prune_blobs p kv namespace how keep s).1
        ≡ some value
  unfolding prune_blobs
  prune_manifest Prune.scan_failed keep value s h = h
  prune_manifest Prune.done keep value s h = prune-manifest p kv laws namespace keep s ∙ h
  prune_manifest Prune.reply_lost keep value s h = prune-manifest p kv laws namespace keep s ∙ h

  -- From a publisher and a server whose kept blobs are sound, a pass whose scan succeeds and whose
  -- write is stored, whatever becomes of its prune; then a pull on a follower that refuses nothing
  -- and on which the paths have room beside each other. The pull reports success for this generation
  -- and clears the marker; at each path of the manifest `storage` has a file with the entry's mode
  -- and a content that has the entry's reference, and it has no other file.
  pub publish_pull-Delivers :
      (rel : Text) (f : FilesetPublisher) (r : ScanResult) (s : Server) (d : Staged)
      → IsSound p kv laws namespace (f, s)
      → scan_of p kv namespace w f ≡ scanned r
      → w.write ≡ Write.done
      → is_placeable (root p int_of_text kv namespace f.key (willing staged_dir)) (sorted r.entries)
        ≡ true
      → IsRestored
          (restore_fileset p int_of_text kv namespace f.key
            (willing staged_dir)
            (async_publish p kv namespace w f s).1.1
            d)
          (suc f.generation)
        × Delivers (blob_ref p f.secret) (lookup rel r.entries) none (
            staged_at rel
              (restore_fileset p int_of_text kv namespace f.key
                (willing staged_dir)
                (async_publish p kv namespace w f s).1.1
                d).1)
  unfolding async_publish write_fileset
  publish_pull-Delivers rel f r s d sound seen whole fits =
      let (named, known, nodup) =
        subst (IsGood p kv laws namespace f.secret f.key (IsBacked p kv namespace f.secret f.key s))
          seen (scan_of-IsGood p kv laws namespace w twelve f s sound) in
      let g = started p kv namespace w f in
      let written =
        announced-IsWritten p kv laws namespace w twelve g r s named known sound
          (stored p kv laws namespace w twelve g r s named known sound)
          (stored-IsSound p kv laws namespace w twelve g r s named known sound)
          (entries_stored p kv laws namespace w twelve g r s named known sound) in
      let keep = keep_of p kv namespace w (turned_over p kv namespace w r.entries g) in
      let before = announced p kv laws namespace w twelve g r s named known sound in
      let after = (prune_blobs p kv namespace w.prune keep before).1 in
      let same : (async_publish p kv namespace w f s).1.1 ≡ after =
        ap (λ x. (after_scan p kv namespace w x f s).1.1) seen
        ∙ ap
            (λ how.
              (after_write p kv namespace w r
                (sealed p kv laws namespace w twelve g r s named known sound) g
                (write_fileset p kv namespace how
                  (manifest p kv laws namespace w twelve g r s named known sound)
                  (sealed p kv laws namespace w twelve g r s named known sound) s)).1.1)
            whole in
      subst
        (λ t.
          IsRestored (restore_fileset p int_of_text kv namespace f.key (willing staged_dir) t d)
            (suc f.generation)
          × Delivers (blob_ref p f.secret) (lookup rel r.entries) none (
              staged_at rel
                (restore_fileset p int_of_text kv namespace f.key (willing staged_dir) t d).1))
        (sym same)
        (restore_fileset-Delivers p plaws int_of_text kv laws namespace f.secret f.key staged_dir
          rel (w.urandom (length r.bodies)) (manifest_of p kv namespace w g r.entries) after d
          (twelve (length r.bodies)) (prune_manifest w.prune keep _ before written.2)
          (prune-IsSound p kv laws namespace w twelve g r s named known sound w.prune before
            written).0
          nodup fits)
