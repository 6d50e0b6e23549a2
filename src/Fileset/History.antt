-- ===== src/Fileset/History.antt =====
-- custom_components/cluster_state_sync/fileset.py: a publisher over its whole life, with restarts of
-- Home Assistant.
use ha_cluster_state_sync.Prelude.{ℕ, ◌≡◌, refl, ◌∙◌, subst, List, [], ◌∷◌, Text, length}
use ha_cluster_state_sync.Fileset.Sealing.{
  Bytes, Primitives, derive_fileset_key, seal, manifest_aad,
}
use ha_cluster_state_sync.Fileset.Keyspace.{Keyspace, KeyspaceLaws}
use ha_cluster_state_sync.Fileset.Scan.{Scanned, scanned, too_large, scan_raised}
use ha_cluster_state_sync.Fileset.Stored.{Wrote, wrote, write_raised, write_fileset}
use ha_cluster_state_sync.Fileset.Publisher.{
  FilesetPublisher, Pass, sealed_bodies, started, after_write, after_scan, scan_of, async_publish,
  fileset_publisher, to_json, manifest_of,
}
use ha_cluster_state_sync.Fileset.Scan.{ScanResult}
use ha_cluster_state_sync.Dict.{Dict}
use ha_cluster_state_sync.Fileset.Backed.{IsReadable}
use ha_cluster_state_sync.Fileset.Published.{IsSound}
use ha_cluster_state_sync.Fileset.Passes.{async_publish-IsSound}

-- A pass, with nonces of twelve bytes, or a restart, which makes the publisher anew.
pub data Event : Type 0 where
  publish : (w : Pass) → ((n : ℕ) → length (w.urandom n) ≡ 12) → Event
  restart : Event

module _ (p : Primitives) {Server : Type 0} (kv : Keyspace Server) (namespace : Text) where
  abbrev pub happen : Event → FilesetPublisher × Server → FilesetPublisher × Server
  happen (publish w twelve) (f, s) = (async_publish p kv namespace w f s).1
  happen restart (f, s) =
      (fileset_publisher p f.node_id f.secret f.exclusions f.extra_paths f.max_bytes, s)

  -- The events in their order.
  abbrev pub history : List Event → FilesetPublisher × Server → FilesetPublisher × Server
  history [] state = state
  history (e ∷ es) state = history es (happen e state)

  -- The key of a publisher is that of its secret, which no pass changes.
  abbrev HasKey : Text → FilesetPublisher → Type 0
  HasKey secret f = (f.secret ≡ secret) × (f.key ≡ derive_fileset_key p secret)

  after_write-HasKey :
      (secret : Text) (w : Pass) (r : ScanResult) (sealed : Dict Bytes) (f : FilesetPublisher)
      (o : Wrote × Server)
      → HasKey secret f
      → HasKey secret (after_write p kv namespace w r sealed f o).1.0
  after_write-HasKey secret w r sealed f (write_raised, t) h = h
  after_write-HasKey secret w r sealed f (wrote, t) h = h

  after_scan-HasKey :
      (secret : Text) (w : Pass) (t : Scanned) (f : FilesetPublisher) (s : Server)
      → HasKey secret f
      → HasKey secret (after_scan p kv namespace w t f s).1.0
  after_scan-HasKey secret w scan_raised f s h = h
  after_scan-HasKey secret w too_large f s h = h
  after_scan-HasKey secret w (scanned r) f s h =
      after_write-HasKey secret w r (sealed_bodies p w.urandom f.key 0 r.bodies)
        (started p kv namespace w f)
        (write_fileset p kv namespace w.write
          (seal p (w.urandom (length r.bodies)) f.key
            (p.encode
              (to_json p (manifest_of p kv namespace w (started p kv namespace w f) r.entries)))
            manifest_aad)
          (sealed_bodies p w.urandom f.key 0 r.bodies) s)
        h

  module _ (laws : KeyspaceLaws kv) where
    happen-IsSound :
        (secret : Text) (e : Event) (f : FilesetPublisher) (s : Server)
        → HasKey secret f
        → IsSound p kv laws namespace (f, s)
        → HasKey secret (happen e (f, s)).0 × IsSound p kv laws namespace (happen e (f, s))
    unfolding async_publish fileset_publisher
    happen-IsSound secret (publish w twelve) f s h sound = (
      after_scan-HasKey secret w (scan_of p kv namespace w f) f s h,
      async_publish-IsSound p kv laws namespace w twelve f s sound,
    )
    happen-IsSound secret restart f s (same, key) (current, previous, readable) = (
      (same, rw same refl),
      (tt, tt, subst (λ k. IsReadable p kv namespace f.secret k s) (key ∙ rw same refl) readable),
    )

    history-IsSound :
        (secret : Text) (es : List Event) (f : FilesetPublisher) (s : Server)
        → HasKey secret f
        → IsSound p kv laws namespace (f, s)
        → HasKey secret (history es (f, s)).0 × IsSound p kv laws namespace (history es (f, s))
    history-IsSound secret [] f s h sound = (h, sound)
    history-IsSound secret (e ∷ es) f s h sound =
        let (has, fine) = happen-IsSound secret e f s h sound in
        history-IsSound secret es (happen e (f, s)).0 (happen e (f, s)).1 has fine

    -- Over any passes and restarts of a publisher, on any directories, with any failure of a write or
    -- a prune, from a server whose manifest a follower can read: at the end the server has no manifest,
    -- or one that opens and whose every entry has its blob, which opens under its own reference and
    -- has a content of that reference.
    pub history-IsReadable :
        (node_id secret : Text) (exclusions extra_paths : List Text) (max_bytes : ℕ)
        (es : List Event) (s : Server)
        → IsReadable p kv namespace secret (derive_fileset_key p secret) s
        → IsReadable p kv namespace secret
            (derive_fileset_key p secret)
            (history es (fileset_publisher p node_id secret exclusions extra_paths max_bytes, s)).1
    unfolding fileset_publisher
    history-IsReadable node_id secret exclusions extra_paths max_bytes es s readable =
        let f = fileset_publisher p node_id secret exclusions extra_paths max_bytes in
        let ((same, key), sound) = history-IsSound secret es f s (refl, refl) (tt, tt, readable) in
        subst (λ k. IsReadable p kv namespace secret k (history es (f, s)).1) key
          (subst (λ x. IsReadable p kv namespace x (history es (f, s)).0.key (history es (f, s)).1)
            same sound.2)
