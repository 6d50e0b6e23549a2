-- ===== src/Fileset/Atomic.antt =====
-- What a pull leaves in the staging directory, whatever the server, the connection and the operating
-- system do.
use ha_cluster_state_sync.Prelude.{
  if-either, ℤ, true, false, ◌&&◌, ◌≡◌, refl, sym, ◌∙◌, ◌⊎◌, inl, inr, Option, none, some, [], Text,
  Option-cases, length,
}
use ha_cluster_state_sync.Dict.{lookup, sorted}
use ha_cluster_state_sync.Fileset.Sealing.{
  Bytes, Primitives, manifest_aad, blob_aad, open_sealed, fileset_manifest_key,
}
use ha_cluster_state_sync.Fileset.Keyspace.{Keyspace}
use ha_cluster_state_sync.Fileset.Parsed.{Tried, fine, bad, overflow, Parsed, refs}
use ha_cluster_state_sync.Fileset.Contents.{
  is_named, contains-refs, source_of, IsInside, IsSealed, IsLaid, Fetches, fetch-Fetches,
  build-IsLaid,
}
use ha_cluster_state_sync.Fileset.Pull.{
  Tree, PullStatus, Staged, Host, Pulled, restored, pull_error, crash, Built, built, escaped,
  stopped, Fetched, fetched, missing, not_authentic, not_base64, fetch, marked, clear_marker,
  rename_incoming, rename_final, remove_previous, install, status_of, with_blobs, fetch_blobs,
  fresh_incoming, make_incoming, root, build, with_manifest, parse, decode_manifest,
  restore_fileset,
}

module _ (p : Primitives) (int_of_text : Text → Option ℤ) {Server : Type 0} (kv : Keyspace Server)
    (namespace : Text) (key : Bytes) (host : Host) where
  -- The sealed manifest that the server holds.
  abbrev pub Holds : Server → Bytes → Type 0
  Holds s sealed =
      (value : Text) × (kv.get (fileset_manifest_key namespace) s ≡ some value)
      × (p.b64decode value ≡ some sealed)

  -- The manifest that the server holds opens, and has the fields of `m`.
  abbrev pub Publishes : Server → Parsed → Type 0
  Publishes s m =
      (sealed : Bytes) × Holds s sealed
      × ((plaintext : Bytes) × (open_sealed p key sealed manifest_aad ≡ some plaintext)
          × (parse p int_of_text kv namespace key host plaintext ≡ fine m))

  -- The tree is the whole of the manifest that the server holds: each path of the manifest leads to
  -- a place of the staging directory, and the tree has, at `path`, the file of the last entry that
  -- leads there, with its mode and the body that the server holds for its reference, or nothing.
  abbrev pub IsWhole : Text → Server → Tree → PullStatus → Type 0
  IsWhole path s tree status =
      (m : Parsed) × Publishes s m
      × IsInside (root p int_of_text kv namespace key host) (sorted m.entries)
      × IsLaid p int_of_text kv namespace key host s
          (source_of (root p int_of_text kv namespace key host) path (sorted m.entries)) none
          (lookup path tree)
      × (status.generation ≡ m.generation)
      × (status.files ≡ length m.entries)
      × (status.fetched ≡ length (refs m.entries))

  -- The server holds a manifest that does not open, or one that names a blob that does not open
  -- under its own reference.
  abbrev pub IsForged : Server → Type 0
  IsForged s =
      ((sealed : Bytes) × Holds s sealed × (open_sealed p key sealed manifest_aad ≡ none))
      ⊎ ((m : Parsed) × Publishes s m
          × ((ref : Text) × (is_named ref m.entries ≡ true)
              × ((sealed : Bytes) × IsSealed p int_of_text kv namespace key host s ref sealed
                  × (open_sealed p key sealed (blob_aad p ref) ≡ none))))

  abbrev pub Accounted : Text → Server → Staged → Pulled × Staged → Type 0
  Accounted path s d (restored status, e) =
      (tree : Tree) × IsWhole path s tree status
      × (e.storage ≡ some tree)
      × (e.verify_failed ≡ false)
      × (e.status ≡ some status)
  Accounted path s d (pull_error, e) =
      (e.storage ≡ d.storage)
      × (e.previous ≡ d.previous)
      × (e.status ≡ d.status)
      × ((e.verify_failed ≡ d.verify_failed) ⊎ ((e.verify_failed ≡ true) × IsForged s))
  Accounted path s d (crash, e) =
      (e.storage ≡ d.storage)
      ⊎ ((e.storage ≡ none) × (e.previous ≡ d.storage))
      ⊎ ((tree : Tree) × (status : PullStatus) × IsWhole path s tree status
          × (e.storage ≡ some tree))

  module _ (path : Text) (s : Server) (d : Staged) where
    clear_marker-Accounted :
        (tree : Tree) (status : PullStatus) (e : Staged)
        → IsWhole path s tree status
        → e.storage ≡ some tree
        → Accounted path s d (clear_marker p int_of_text kv namespace key host status e)
    clear_marker-Accounted tree status e whole h =
        if-either (Accounted path s d) (e.verify_failed && host.unlink_refused) _ _
          (inr (inr (tree, status, whole, h)))
          (if-either (Accounted path s d) (host.write_status_refused) _ _
            (inr (inr (tree, status, whole, h))) (tree, whole, h, refl, refl))

    rename_incoming-Accounted :
        (tree : Tree) (status : PullStatus) (e : Staged)
        → IsWhole path s tree status
        → (e.storage ≡ d.storage) ⊎ ((e.storage ≡ none) × (e.previous ≡ d.storage))
        → Accounted path s d (rename_incoming p int_of_text kv namespace key host tree status e)
    rename_incoming-Accounted tree status e whole h =
        if-either (Accounted path s d) (host.rename_incoming_refused) _ _
          (elim h [ inl same ↦ inl same | inr moved ↦ inr (inl moved) ])
          (clear_marker-Accounted tree status
            (record e { storage = some tree; incoming = host.rmtree_last }) whole refl)

    rename_final-Accounted :
        (final : Option Tree) (tree : Tree) (status : PullStatus) (e : Staged)
        → IsWhole path s tree status
        → e.storage ≡ d.storage
        → e.storage ≡ final
        → Accounted path s d (rename_final p int_of_text kv namespace key host final tree status e)
    rename_final-Accounted none tree status e whole h f =
        rename_incoming-Accounted tree status e whole (inl h)
    rename_final-Accounted (some final) tree status e whole h f =
        if-either (Accounted path s d) (host.rename_final_refused) _ _ (inl h) (
          rename_incoming-Accounted tree status (record e { previous = some final; storage = none })
            whole (inr (refl, sym f ∙ h)))

    remove_previous-Accounted :
        (previous : Option Tree) (tree : Tree) (status : PullStatus) (e : Staged)
        → IsWhole path s tree status
        → e.storage ≡ d.storage
        → Accounted path s d
            (remove_previous p int_of_text kv namespace key host previous tree status e)
    unfolding parse fetch build
    remove_previous-Accounted none tree status e whole h =
        rename_final-Accounted e.storage tree status e whole h refl
    remove_previous-Accounted (some previous) tree status e whole h =
        elim (Option-cases host.rmtree_previous) [
          | inl gone ↦ rw gone (
              rename_final-Accounted e.storage tree status (record e { previous = none }) whole h
                refl)
          | inr (left, kept) ↦ rw kept (inl h)
        ]

    -- Nothing but `.incoming` has changed yet.
    module _ (inc : Option Tree) where
      abbrev untouched : Staged
      untouched = record d { incoming = inc }

      marked-Accounted :
          IsForged s → Accounted path s d (marked p int_of_text kv namespace key host untouched)
      marked-Accounted forged =
          if-either (Accounted path s d) (host.write_marker_refused) _ _ (inl refl)
            (refl, refl, refl, inr (refl, forged))

      install-Accounted :
          (b : Built) (status : PullStatus)
          → ((tree : Tree) → b ≡ built tree → IsWhole path s tree status)
          → Accounted path s d (install p int_of_text kv namespace key host b status untouched)
      install-Accounted (built tree) status whole =
          remove_previous-Accounted d.previous tree status (record d { incoming = some tree })
            (whole tree refl) refl
      install-Accounted (escaped tree) status whole = (refl, refl, refl, inl refl)
      install-Accounted (stopped tree) status whole = inl refl

      with_blobs-Accounted :
          (m : Parsed) (f : Fetched)
          → Publishes s m
          → Fetches p int_of_text kv namespace key host s (refs m.entries) f
          → Accounted path s d (with_blobs p int_of_text kv namespace key host m f untouched)
      unfolding lookup
      with_blobs-Accounted m missing published h = (refl, refl, refl, inl refl)
      with_blobs-Accounted m not_authentic published (ref, asked, forged) =
          marked-Accounted
            (inr (m, published, (ref, sym (contains-refs ref m.entries) ∙ asked, forged)))
      with_blobs-Accounted m not_base64 published h = inl refl
      with_blobs-Accounted m (fetched bodies) published (opens, count) =
          if-either (Accounted path s d) (host.mkdir_root_refused) _ _ (inl refl) (
            install-Accounted
              (build p int_of_text kv namespace key host (sorted m.entries) bodies [])
              (status_of p int_of_text kv namespace key host m bodies)
              (λ tree b.
                let (inside, laid) =
                  build-IsLaid p int_of_text kv namespace key host s path (sorted m.entries) bodies
                    [] tree opens b in
                (m, published, inside, laid, refl, refl, count)))

      fetch_blobs-Accounted :
          (m : Parsed)
          → Publishes s m
          → Accounted path s d (fetch_blobs p int_of_text kv namespace key host m s untouched)
      fetch_blobs-Accounted m published =
          if-either (Accounted path s d) (host.mget_refused) _ _ (refl, refl, refl, inl refl)
            (with_blobs-Accounted m (fetch p int_of_text kv namespace key host (refs m.entries) s)
              published (fetch-Fetches p int_of_text kv namespace key host (refs m.entries) s))

    make_incoming-Accounted :
        (m : Parsed)
        → Publishes s m
        → Accounted path s d (make_incoming p int_of_text kv namespace key host m s d)
    make_incoming-Accounted m published =
        if-either (Accounted path s d) (host.mkdir_incoming_refused) _ _ (inl refl)
          (fetch_blobs-Accounted (some []) m published)

    fresh_incoming-Accounted :
        (inc : Option Tree) (m : Parsed)
        → Publishes s m
        → Accounted path s d (fresh_incoming p int_of_text kv namespace key host inc m s d)
    unfolding parse fetch build
    fresh_incoming-Accounted none m published = make_incoming-Accounted m published
    fresh_incoming-Accounted (some tree) m published = elim (Option-cases host.rmtree_incoming) [
      | inl gone ↦ rw gone (make_incoming-Accounted m published)
      | inr (left, kept) ↦ rw kept (inl refl)
    ]

    with_manifest-Accounted :
        (t : Tried Parsed)
        → ((m : Parsed) → t ≡ fine m → Publishes s m)
        → Accounted path s d (with_manifest p int_of_text kv namespace key host t s d)
    with_manifest-Accounted bad published = (refl, refl, refl, inl refl)
    with_manifest-Accounted overflow published = inl refl
    with_manifest-Accounted (fine m) published =
        fresh_incoming-Accounted d.incoming m (published m refl)

    decode_manifest-Accounted :
        (o : Option Bytes)
        → ((sealed : Bytes) → o ≡ some sealed → Holds s sealed)
        → Accounted path s d (decode_manifest p int_of_text kv namespace key host o s d)
    decode_manifest-Accounted none held = inl refl
    decode_manifest-Accounted (some sealed) held =
        elim (Option-cases (open_sealed p key sealed manifest_aad)) [
          | inl shut ↦ rw shut (marked-Accounted d.incoming (inl (sealed, held sealed refl, shut)))
          | inr (plaintext, opens) ↦ rw opens (
              with_manifest-Accounted (parse p int_of_text kv namespace key host plaintext)
                (λ m h. (sealed, held sealed refl, (plaintext, opens, h))))
        ]

    -- After a pull that reports success `storage` is the whole of the manifest that the server holds:
    -- each of its paths leads to a place of the staging directory, and at any path `storage` has the
    -- file of the last entry, by the order of the paths, that leads there, in its mode and with the
    -- body that the server's blob of its reference opens to under this reference, or nothing where
    -- no entry leads; the marker is gone, and the status is this pull's, with the generation and the
    -- counts of the manifest. A pull that ends in a PullError has left `storage`, `.previous` and
    -- the status alone, and has set the marker only where the manifest does not authenticate, or a
    -- blob that it names. After any other exception `storage` is what it was, or is absent with what
    -- it was in `.previous`, or is the whole of the manifest.
    pub restore_fileset-Accounted :
        Accounted path s d (restore_fileset p int_of_text kv namespace key host s d)
    unfolding restore_fileset
    restore_fileset-Accounted = if-either (Accounted path s d) (host.mkdir_refused) _ _ (inl refl) (
        if-either (Accounted path s d) (host.get_refused) _ _ (refl, refl, refl, inl refl)
          (elim (Option-cases (kv.get (fileset_manifest_key namespace) s)) [
            | inl absent ↦ rw absent (refl, refl, refl, inl refl)
            | inr (value, there) ↦
                rw there
                  (decode_manifest-Accounted (p.b64decode value) (λ sealed h. (value, there, h)))
          ]))
