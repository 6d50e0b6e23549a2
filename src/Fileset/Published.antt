-- ===== src/Fileset/Published.antt =====
-- custom_components/cluster_state_sync/fileset.py: what the passes of one publisher leave on the
-- server, whatever happens to their writes and prunes.
use ha_cluster_state_sync.Prelude.{
  ℕ, true, ◌≡◌, refl, ◌∙◌, inl, inr, some, [], ◌∷◌, Text, text_eq_refl, length, arith,
}
use ha_cluster_state_sync.Dict.{contains-append, Dict, contains}
use ha_cluster_state_sync.Fileset.Sealing.{
  Bytes, Primitives, manifest_aad, seal, fileset_manifest_key,
}
use ha_cluster_state_sync.Fileset.Keyspace.{Keyspace, KeyspaceLaws}
use ha_cluster_state_sync.Fileset.Scan.{FileEntry, ScanResult}
use ha_cluster_state_sync.Fileset.Stored.{
  Wrote, wrote, write_raised, set_blobs, set_manifest, doomed_in, delete,
}
use ha_cluster_state_sync.Fileset.Publisher.{
  FilesetPublisher, Pass, to_json, sealed_bodies, manifest_of, keep_of, refs_of,
}
use ha_cluster_state_sync.Fileset.Backed.{
  AllRefs, AllRefs-map, IsBacked, IsReadable, AreNamed, set_blobs-keeps, set_blobs-sets,
  set_blobs_manifest, prune-IsBacked, keeps-IsReadable, set_manifest-IsReadable,
  set_manifest-IsBacked,
}
use ha_cluster_state_sync.Fileset.Keys.{prune-manifest}
use ha_cluster_state_sync.Fileset.Scanned.{IsKnown}

-- The entries whose references are all in `keep`.
AllRefs-kept : (es : Dict FileEntry) → AllRefs (λ ref. contains ref (refs_of es) ≡ true) es
unfolding contains
AllRefs-kept [] = tt
AllRefs-kept ((rel, e) ∷ es) =
    (rw (text_eq_refl e.ref) refl, AllRefs-map es (λ ref h. ground (arith, h)) (AllRefs-kept es))

AllRefs-both :
    (Q R : Text → Type 0) (es : Dict FileEntry)
    → AllRefs Q es
    → AllRefs R es
    → AllRefs (λ ref. Q ref × R ref) es
AllRefs-both Q R [] q r = tt
AllRefs-both Q R ((rel, e) ∷ es) (q, qs) (r, rs) = ((q, r), AllRefs-both Q R es qs rs)

module _ (p : Primitives) {Server : Type 0} (kv : Keyspace Server) (laws : KeyspaceLaws kv)
    (namespace : Text) where
  -- The server holds the blobs of the two generations that the publisher keeps, and of the
  -- manifest that a follower reads.
  abbrev pub IsSound : FilesetPublisher × Server → Type 0
  IsSound (f, s) =
      AllRefs (IsBacked p kv namespace f.secret f.key s) f.current
      × AllRefs (IsBacked p kv namespace f.secret f.key s) f.previous
      × IsReadable p kv namespace f.secret f.key s

  module _ (w : Pass) (twelve : (n : ℕ) → length (w.urandom n) ≡ 12) where
    -- A prune right after the manifest of the current entries has been stored.
    pub delete-IsSound :
        (nonce : Bytes) (f g : FilesetPublisher) (s : Server)
        → length nonce ≡ 12
        → kv.get (fileset_manifest_key namespace) s
          ≡ some (
              p.b64encode (
                seal p nonce f.key
                  (p.encode (to_json p (manifest_of p kv namespace w g f.current)))
                  manifest_aad))
        → IsSound (f, s)
        → IsSound (
          f,
          (delete p kv namespace (doomed_in p kv namespace (keep_of p kv namespace w f) s) s).1,
        )
    delete-IsSound nonce f g s n stored (current, previous, readable) =
        let keep = keep_of p kv namespace w f in
        let kept : (ref : Text)
            → (contains ref keep ≡ true) × IsBacked p kv namespace f.secret f.key s ref
            → IsBacked p kv namespace f.secret f.key
                (delete p kv namespace (doomed_in p kv namespace keep s) s).1 ref =
          λ ref (k, b). prune-IsBacked p kv namespace f.secret f.key laws keep ref s k b in
        let now = AllRefs-map f.current kept (
          AllRefs-both (λ ref. contains ref keep ≡ true) (IsBacked p kv namespace f.secret f.key s)
            f.current
            (AllRefs-map f.current
              (λ ref h. contains-append ref (refs_of f.current) (refs_of f.previous) ∙ rw h refl)
              (AllRefs-kept f.current))
            current) in
        let before = AllRefs-map f.previous kept (
          AllRefs-both (λ ref. contains ref keep ≡ true) (IsBacked p kv namespace f.secret f.key s)
            f.previous
            (AllRefs-map f.previous
              (λ ref h.
                ground (arith, contains-append ref (refs_of f.current) (refs_of f.previous), h))
              (AllRefs-kept f.previous))
            previous) in
        (
          now,
          before,
          inr (
            nonce,
            manifest_of p kv namespace w g f.current,
            n,
            prune-manifest p kv laws namespace keep s ∙ stored,
            now,
          ),
        )

    -- The bodies of this pass are on the server, and it may already have the manifest.
    module _ (f : FilesetPublisher) (r : ScanResult) (s : Server)
        (named : AreNamed p kv namespace f.secret f.key laws r.bodies)
        (known : AllRefs
          (IsKnown p kv laws namespace f.secret f.key
            (IsBacked p kv namespace f.secret f.key s)
            r.bodies)
          r.entries)
        (sound : IsSound (f, s)) where
      abbrev pub sealed : Dict Bytes
      sealed = sealed_bodies p w.urandom f.key 0 r.bodies

      abbrev pub stored : Server
      stored = set_blobs p kv namespace sealed s

      abbrev pub manifest : Bytes
      manifest =
          seal p (w.urandom (length r.bodies)) f.key
            (p.encode (to_json p (manifest_of p kv namespace w f r.entries))) manifest_aad

      abbrev pub announced : Server
      announced = set_manifest p kv namespace manifest stored

      -- A server that keeps every blob and the manifest.
      pub keeps-IsSound :
          (t : Server)
          → ((ref : Text)
              → IsBacked p kv namespace f.secret f.key s ref
              → IsBacked p kv namespace f.secret f.key t ref)
          → kv.get (fileset_manifest_key namespace) t ≡ kv.get (fileset_manifest_key namespace) s
          → IsSound (f, t)
      keeps-IsSound t keeps same = (
        AllRefs-map f.current keeps sound.0,
        AllRefs-map f.previous keeps sound.1,
        keeps-IsReadable p kv namespace f.secret f.key laws s t same keeps sound.2,
      )

      keeps :
          (ref : Text)
          → IsBacked p kv namespace f.secret f.key s ref
          → IsBacked p kv namespace f.secret f.key stored ref
      keeps ref =
          set_blobs-keeps p kv namespace f.secret f.key laws w.urandom twelve 0 r.bodies ref s named

      pub stored-IsSound : IsSound (f, stored)
      stored-IsSound =
          keeps-IsSound stored keeps
            (set_blobs_manifest p kv namespace f.secret f.key laws sealed s)

      -- Every entry of the manifest has its blob, read in this pass or from before.
      pub entries_stored : AllRefs (IsBacked p kv namespace f.secret f.key stored) r.entries
      entries_stored =
          AllRefs-map r.entries
            (λ ref h. elim h [
              | inl read ↦
                  set_blobs-sets p kv namespace f.secret f.key laws w.urandom twelve 0 r.bodies ref
                    s named read
              | inr before ↦ keeps ref before
            ])
            known

      set_manifest-IsSound :
          (t : Server)
          → IsSound (f, t)
          → AllRefs (IsBacked p kv namespace f.secret f.key t) r.entries
          → AllRefs
              (IsBacked p kv namespace f.secret f.key (set_manifest p kv namespace manifest t))
              r.entries
            × IsSound (f, set_manifest p kv namespace manifest t)
      set_manifest-IsSound t (current, previous, readable) backed =
          let on : (ref : Text)
              → IsBacked p kv namespace f.secret f.key t ref
              → IsBacked p kv namespace f.secret f.key (set_manifest p kv namespace manifest t)
                  ref =
            λ ref. set_manifest-IsBacked p kv namespace f.secret f.key laws manifest ref t in
          (
            AllRefs-map r.entries on backed,
            (
              AllRefs-map f.current on current,
              AllRefs-map f.previous on previous,
              set_manifest-IsReadable p kv namespace f.secret f.key laws
                  (w.urandom (length r.bodies)) (manifest_of p kv namespace w f r.entries) t
                  (twelve (length r.bodies)) backed,
            ),
          )

      abbrev pub IsWritten : Wrote × Server → Type 0
      IsWritten (write_raised, t) = IsSound (f, t)
      IsWritten (wrote, t) =
          AllRefs (IsBacked p kv namespace f.secret f.key t) r.entries
          × IsSound (f, t)
          × (kv.get (fileset_manifest_key namespace) t ≡ some (p.b64encode manifest))

      manifest_there :
          (t : Server)
          → kv.get (fileset_manifest_key namespace) (set_manifest p kv namespace manifest t)
            ≡ some (p.b64encode manifest)
      manifest_there t =
          laws.get-set (fileset_manifest_key namespace) (fileset_manifest_key namespace)
            (p.b64encode manifest) t
          ∙ rw (text_eq_refl (fileset_manifest_key namespace)) refl

      pub announced-IsWritten :
          (t : Server)
          → IsSound (f, t)
          → AllRefs (IsBacked p kv namespace f.secret f.key t) r.entries
          → IsWritten (wrote, set_manifest p kv namespace manifest t)
      announced-IsWritten t fine backed =
          let (entries, whole) = set_manifest-IsSound t fine backed in
          (entries, whole, manifest_there t)
