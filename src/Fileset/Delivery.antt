-- ===== src/Fileset/Delivery.antt =====
-- fileset.py, backend.py and fileset_pull.py together: a pass of the leader, then a pull of the
-- follower.
use ha_cluster_state_sync.Prelude.{
  and_false, ℕ, ◌≡◌, refl, sym, ap, ◌∙◌, subst, true, false, Bool-cases, inl, inr, ℤ, pos, Option,
  none, some, List, [], ◌∷◌, Text, length,
}
use ha_cluster_state_sync.Dict.{
  Dict, NodupKeys, lookup, sorted, insert_sorted, text_ltb, sorted-NodupKeys, lookup-sorted,
}
use ha_cluster_state_sync.Dict.Order.{sorted_idem}
use ha_cluster_state_sync.Fileset.Sealing.{
  Bytes, Primitives, PrimitiveLaws, blob_ref, manifest_aad, seal, fileset_manifest_key,
}
use ha_cluster_state_sync.Fileset.Keyspace.{Keyspace, KeyspaceLaws}
use ha_cluster_state_sync.Fileset.Scan.{FileEntry}
use ha_cluster_state_sync.Fileset.Publisher.{Manifest, to_json}
use ha_cluster_state_sync.Fileset.Parsed.{Parsed, refs}
use ha_cluster_state_sync.Fileset.Backed.{AllRefs, IsBacked}
use ha_cluster_state_sync.Fileset.Pull.{
  Tree, StagedFile, Staged, PullStatus, Host, status_of, Pulled, restored, fetch, rename_incoming,
  rename_final, remove_previous, fresh_incoming, with_blobs, root, restore_fileset,
}
use ha_cluster_state_sync.Fileset.Opening.{pull_entries, parsed_of, open_sealed-seal, parse-to_json}
use ha_cluster_state_sync.Fileset.Fetching.{fetch-IsFetched, AllRefs-sorted}
use ha_cluster_state_sync.Fileset.Building.{is_placeable, Free-empty, Delivers, build-Delivers}

-- A follower on which nothing is refused.
abbrev pub willing : (staged_dir : List Text) → Host
willing staged_dir = record {
  staged_dir = staged_dir;
  get_refused = false;
  mget_refused = false;
  mkdir_refused = false;
  write_marker_refused = false;
  rmtree_incoming = none;
  mkdir_incoming_refused = false;
  mkdir_root_refused = false;
  write_refused = λ t. false;
  rmtree_previous = none;
  rename_final_refused = false;
  rename_incoming_refused = false;
  rmtree_last = none;
  unlink_refused = false;
  write_status_refused = false;
}

-- The file at a path of `storage`.
unfoldable pub staged_at : Text → Staged → Option StagedFile
unfolding lookup
staged_at rel d = elim d.storage [ none ↦ none | some tree ↦ lookup rel tree ]

staged_at-storage :
    (rel : Text) (tree : Tree) (d : Staged)
    → d.storage ≡ some tree
    → staged_at rel d ≡ lookup rel tree
unfolding staged_at
staged_at-storage rel tree d h = rw h refl

abbrev pub IsRestored : Pulled × Staged → ℕ → Type 0
IsRestored x generation =
    (status : PullStatus) × (x.0 ≡ restored status)
    × (status.generation ≡ pos generation)
    × (x.1.verify_failed ≡ false)
    × (x.1.status ≡ some status)

abbrev Ends : Tree → PullStatus → Pulled × Staged → Type 0
Ends tree status x =
    (x.0 ≡ restored status)
    × (x.1.storage ≡ some tree)
    × (x.1.verify_failed ≡ false)
    × (x.1.status ≡ some status)

insert_sorted-pull_entries :
    (rel : Text) (e : FileEntry) (es : Dict FileEntry)
    → insert_sorted rel (record { ref = e.ref; mode = pos e.mode }) (pull_entries es)
      ≡ pull_entries (insert_sorted rel e es)
unfolding insert_sorted
insert_sorted-pull_entries rel e [] = refl
insert_sorted-pull_entries rel e ((r, x) ∷ es) = elim (Bool-cases (text_ltb r rel)) [
  | inl before ↦ rw before (
      ap (λ t. (r, record { ref = x.ref; mode = pos x.mode }) ∷ t)
        (insert_sorted-pull_entries rel e es))
  | inr after ↦ rw after refl
]

sorted-pull_entries : (es : Dict FileEntry) → sorted (pull_entries es) ≡ pull_entries (sorted es)
unfolding sorted
sorted-pull_entries [] = refl
sorted-pull_entries ((rel, e) ∷ es) =
    ap (insert_sorted rel (record { ref = e.ref; mode = pos e.mode })) (sorted-pull_entries es)
    ∙ insert_sorted-pull_entries rel e (sorted es)

resorted : (es : Dict FileEntry) → sorted (pull_entries (sorted es)) ≡ pull_entries (sorted es)
resorted es = sorted-pull_entries (sorted es) ∙ ap pull_entries (sorted_idem es)

module _ (p : Primitives) (plaws : PrimitiveLaws p) (int_of_text : Text → Option ℤ)
    {Server : Type 0} (kv : Keyspace Server) (laws : KeyspaceLaws kv) (namespace secret : Text)
    (key : Bytes) (staged_dir : List Text) where
  abbrev at : List Text
  at = root p int_of_text kv namespace key (willing staged_dir)

  rename_incoming-Ends :
      (tree : Tree) (status : PullStatus) (d : Staged)
      → Ends tree status
          (rename_incoming p int_of_text kv namespace key (willing staged_dir) tree status d)
  rename_incoming-Ends tree status d = rw (and_false d.verify_failed) (refl, refl, refl, refl)

  rename_final-Ends :
      (final : Option Tree) (tree : Tree) (status : PullStatus) (d : Staged)
      → Ends tree status
          (rename_final p int_of_text kv namespace key (willing staged_dir) final tree status d)
  rename_final-Ends none tree status d = rename_incoming-Ends tree status d
  rename_final-Ends (some final) tree status d =
      rename_incoming-Ends tree status (record d { previous = some final; storage = none })

  remove_previous-Ends :
      (previous : Option Tree) (tree : Tree) (status : PullStatus) (d : Staged)
      → Ends tree status (
          remove_previous p int_of_text kv namespace key
            (willing staged_dir)
            previous
            tree
            status
            d)
  remove_previous-Ends none tree status d = rename_final-Ends d.storage tree status d
  remove_previous-Ends (some previous) tree status d =
      rename_final-Ends d.storage tree status (record d { previous = none })

  fresh_incoming-fetches :
      (inc : Option Tree) (m : Parsed) (s : Server) (d : Staged)
      → fresh_incoming p int_of_text kv namespace key (willing staged_dir) inc m s d
        ≡ with_blobs p int_of_text kv namespace key
            (willing staged_dir)
            m
            (fetch p int_of_text kv namespace key (willing staged_dir) (refs m.entries) s)
            (record d { incoming = some [] })
  fresh_incoming-fetches none m s d = refl
  fresh_incoming-fetches (some tree) m s d = refl

  -- A pull from a server with such a manifest.
  pub restore_fileset-Delivers :
      (rel : Text) (nonce : Bytes) (m : Manifest) (s : Server) (d : Staged)
      → length nonce ≡ 12
      → kv.get (fileset_manifest_key namespace) s
        ≡ some (p.b64encode (seal p nonce key (p.encode (to_json p m)) manifest_aad))
      → AllRefs (IsBacked p kv namespace secret key s) m.entries
      → NodupKeys m.entries
      → is_placeable at (sorted m.entries) ≡ true
      → IsRestored
          (restore_fileset p int_of_text kv namespace key (willing staged_dir) s d)
          m.generation
        × Delivers (blob_ref p secret) (lookup rel m.entries) none (
            staged_at rel
              (restore_fileset p int_of_text kv namespace key (willing staged_dir) s d).1)
  unfolding restore_fileset
  restore_fileset-Delivers rel nonce m s d n there backed u fits =
      let v = sorted-NodupKeys m.entries u in
      let (bodies, got, found) =
        fetch-IsFetched p plaws int_of_text kv laws namespace secret key (willing staged_dir)
          (sorted m.entries) s
          (AllRefs-sorted (IsBacked p kv namespace secret key s) m.entries backed) in
      let (tree, done, delivered) =
        build-Delivers p plaws int_of_text kv laws namespace secret key (willing staged_dir)
          (λ t. refl) bodies rel (sorted m.entries) [] v fits
          (Free-empty at (sorted m.entries) fits) found in
      let e : restore_fileset p int_of_text kv namespace key (willing staged_dir) s d
          ≡ remove_previous p int_of_text kv namespace key (willing staged_dir) d.previous tree
              (status_of p int_of_text kv namespace key (willing staged_dir) (parsed_of m) bodies)
              (record d { incoming = some tree }) =
        rw
          (
            there,
            plaws.b64decode-b64encode (seal p nonce key (p.encode (to_json p m)) manifest_aad),
            open_sealed-seal p plaws nonce key (p.encode (to_json p m)) manifest_aad n,
            parse-to_json p plaws int_of_text kv namespace key (willing staged_dir) m u,
            fresh_incoming-fetches d.incoming (parsed_of m) s d,
            got,
            resorted m.entries,
            done,
          )
          refl in
      let status =
        status_of p int_of_text kv namespace key (willing staged_dir) (parsed_of m) bodies in
      let (same, whole, clear, told) =
        remove_previous-Ends d.previous tree status (record d { incoming = some tree }) in
      subst
        (λ x.
          IsRestored x m.generation
          × Delivers (blob_ref p secret) (lookup rel m.entries) none (staged_at rel x.1))
        (sym e)
        (
          (status, same, refl, clear, told),
          subst (λ o. Delivers (blob_ref p secret) (lookup rel m.entries) none o)
              (sym (
                staged_at-storage rel tree
                  (remove_previous p int_of_text kv namespace key (willing staged_dir) d.previous
                    tree status (record d { incoming = some tree })).1
                  whole))
              (subst (λ o. Delivers (blob_ref p secret) o none (lookup rel tree))
                (lookup-sorted rel m.entries u) delivered),
        )
