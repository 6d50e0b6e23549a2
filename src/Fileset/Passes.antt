-- ===== src/Fileset/Passes.antt =====
-- custom_components/cluster_state_sync/fileset.py: any number of passes and restarts of a publisher.
use ha_cluster_state_sync.Prelude.{
  Option, none, subst, ℕ, ◌≡◌, refl, some, List, [], ◌∷◌, Text, Bool, length,
}
use ha_cluster_state_sync.Dict.{Dict}
use ha_cluster_state_sync.Fileset.Sealing.{Bytes, Primitives}
use ha_cluster_state_sync.Fileset.Keyspace.{Keyspace, KeyspaceLaws}
use ha_cluster_state_sync.Fileset.Scan.{
  ScanResult, Scanned, scanned, too_large, scan_raised, candidates, scan_candidates, scan,
  nothing_yet,
}
use ha_cluster_state_sync.Fileset.Stored.{
  Write, Prune, Wrote, wrote, write_raised, write_fileset, prune_blobs, set_blobs, set_some,
}
use ha_cluster_state_sync.Fileset.Publisher.{
  FilesetPublisher, Pass, sealed_bodies, started, turned_over, keep_of, after_write, after_scan,
  scan_of, async_publish,
}
use ha_cluster_state_sync.Fileset.Backed.{
  AllRefs, IsBacked, AreNamed, set_some-keeps, set_some_manifest,
}
use ha_cluster_state_sync.Fileset.Scanned.{IsKnown, IsGood, scan_files-IsGood}
use ha_cluster_state_sync.Fileset.Published.{
  IsSound, IsWritten, keeps-IsSound, stored-IsSound, entries_stored, announced-IsWritten,
  delete-IsSound, manifest, sealed, stored,
}

module _ (p : Primitives) {Server : Type 0} (kv : Keyspace Server) (laws : KeyspaceLaws kv)
    (namespace : Text) (w : Pass) (twelve : (n : ℕ) → length (w.urandom n) ≡ 12) where
  module _ (f : FilesetPublisher) (r : ScanResult) (s : Server)
      (named : AreNamed p kv namespace f.secret f.key laws r.bodies)
      (known : AllRefs
        (IsKnown p kv laws namespace f.secret f.key
          (IsBacked p kv namespace f.secret f.key s)
          r.bodies)
        r.entries)
      (sound : IsSound p kv laws namespace (f, s)) where
    blobs_failed-IsWritten :
        (kept : List Bool) (bodies : Dict Bytes)
        → r.bodies ≡ bodies
        → IsWritten p kv laws namespace w twelve f r s named known sound (
            write_fileset p kv namespace
              (Write.blobs_failed kept)
              (manifest p kv laws namespace w twelve f r s named known sound)
              (sealed_bodies p w.urandom f.key 0 bodies)
              s)
    unfolding write_fileset sealed_bodies
    blobs_failed-IsWritten kept [] e =
        announced-IsWritten p kv laws namespace w twelve f r s named known sound s sound (
          subst
            (λ b.
              AllRefs
                (IsBacked p kv namespace f.secret f.key
                  (set_blobs p kv namespace (sealed_bodies p w.urandom f.key 0 b) s))
                r.entries)
            e (entries_stored p kv laws namespace w twelve f r s named known sound))
    blobs_failed-IsWritten kept ((ref, body) ∷ bodies) e =
        keeps-IsSound p kv laws namespace w twelve f r s named known sound
          (set_some p kv namespace kept (sealed_bodies p w.urandom f.key 0 ((ref, body) ∷ bodies))
            s)
          (λ x.
            set_some-keeps p kv namespace f.secret f.key laws w.urandom twelve kept 0
              ((ref, body) ∷ bodies) x s
              (subst (AreNamed p kv namespace f.secret f.key laws) e named))
          (set_some_manifest p kv namespace f.secret f.key laws kept
            (sealed_bodies p w.urandom f.key 0 ((ref, body) ∷ bodies)) s)

    write-IsWritten :
        (how : Write)
        → IsWritten p kv laws namespace w twelve f r s named known sound (
            write_fileset p kv namespace how
              (manifest p kv laws namespace w twelve f r s named known sound)
              (sealed p kv laws namespace w twelve f r s named known sound)
              s)
    unfolding write_fileset
    write-IsWritten Write.not_connected = sound
    write-IsWritten (Write.blobs_failed kept) = blobs_failed-IsWritten kept r.bodies refl
    write-IsWritten Write.manifest_refused =
        stored-IsSound p kv laws namespace w twelve f r s named known sound
    write-IsWritten Write.manifest_lost =
        (announced-IsWritten p kv laws namespace w twelve f r s named known sound
          (stored p kv laws namespace w twelve f r s named known sound)
          (stored-IsSound p kv laws namespace w twelve f r s named known sound)
          (entries_stored p kv laws namespace w twelve f r s named known sound)).1
    write-IsWritten Write.done =
        announced-IsWritten p kv laws namespace w twelve f r s named known sound
          (stored p kv laws namespace w twelve f r s named known sound)
          (stored-IsSound p kv laws namespace w twelve f r s named known sound)
          (entries_stored p kv laws namespace w twelve f r s named known sound)

    pub prune-IsSound :
        (how : Prune) (t : Server)
        → IsWritten p kv laws namespace w twelve f r s named known sound (wrote, t)
        → IsSound p kv laws namespace (
          turned_over p kv namespace w r.entries f,
          (prune_blobs p kv namespace how
              (keep_of p kv namespace w (turned_over p kv namespace w r.entries f))
              t).1,
        )
    unfolding prune_blobs
    prune-IsSound Prune.scan_failed t (entries, fine, there) = (entries, fine.0, fine.2)
    prune-IsSound Prune.done t (entries, fine, there) =
        delete-IsSound p kv laws namespace w twelve (w.urandom (length r.bodies))
          (turned_over p kv namespace w r.entries f) f t (twelve (length r.bodies)) there
          (entries, fine.0, fine.2)
    prune-IsSound Prune.reply_lost t (entries, fine, there) =
        delete-IsSound p kv laws namespace w twelve (w.urandom (length r.bodies))
          (turned_over p kv namespace w r.entries f) f t (twelve (length r.bodies)) there
          (entries, fine.0, fine.2)

    after_write-IsSound :
        (o : Wrote × Server)
        → IsWritten p kv laws namespace w twelve f r s named known sound o
        → IsSound p kv laws namespace
            (after_write p kv namespace w r
              (sealed p kv laws namespace w twelve f r s named known sound)
              f
              o).1
    unfolding prune_blobs
    after_write-IsSound (write_raised, t) h = h
    after_write-IsSound (wrote, t) h = prune-IsSound w.prune t h

  after_scan-IsSound :
      (t : Scanned) (f : FilesetPublisher) (s : Server)
      → IsGood p kv laws namespace f.secret f.key (IsBacked p kv namespace f.secret f.key s) t
      → IsSound p kv laws namespace (f, s)
      → IsSound p kv laws namespace (after_scan p kv namespace w t f s).1
  after_scan-IsSound scan_raised f s good sound = sound
  after_scan-IsSound too_large f s good sound = sound
  after_scan-IsSound (scanned r) f s (named, known, nodup) sound =
      let g = started p kv namespace w f in
      after_write-IsSound g r s named known sound
        (write_fileset p kv namespace w.write
          (manifest p kv laws namespace w twelve g r s named known sound)
          (sealed p kv laws namespace w twelve g r s named known sound) s)
        (write-IsWritten g r s named known sound w.write)

  pub scan_of-IsGood :
      (f : FilesetPublisher) (s : Server)
      → IsSound p kv laws namespace (f, s)
      → IsGood p kv laws namespace f.secret f.key
          (IsBacked p kv namespace f.secret f.key s)
          (scan_of p kv namespace w f)
  unfolding scan
  scan_of-IsGood f s sound = go_on (candidates w.directory f.extra_paths)
    where
      go_on :
          (o : Option (List Text))
          → IsGood p kv laws namespace f.secret f.key
              (IsBacked p kv namespace f.secret f.key s)
              (scan_candidates p w.directory f.secret f.exclusions f.current (some f.max_bytes) o)
      go_on none = tt
      go_on (some rels) =
          scan_files-IsGood p kv laws namespace f.secret f.key
            (IsBacked p kv namespace f.secret f.key s) w.directory f.exclusions f.current
            (some f.max_bytes) sound.0 rels
            (nothing_yet p w.directory f.secret f.exclusions f.current (some f.max_bytes))
            (tt, tt, tt)

  pub async_publish-IsSound :
      (f : FilesetPublisher) (s : Server)
      → IsSound p kv laws namespace (f, s)
      → IsSound p kv laws namespace (async_publish p kv namespace w f s).1
  unfolding async_publish
  async_publish-IsSound f s sound =
      after_scan-IsSound (scan_of p kv namespace w f) f s (scan_of-IsGood f s sound) sound
