-- ===== src/Fileset/Scanned.antt =====
-- custom_components/cluster_state_sync/fileset.py, `scan`: where the references of its entries come
-- from.
use ha_cluster_state_sync.Prelude.{
  ℕ, ◌+◌, true, ◌≡◌, ◌≢◌, refl, subst, ◌⊎◌, inl, inr, Option, none, some, List, [], ◌∷◌, Text,
  text_eq, text_eq_iff, text_eq_refl, arith, Bool-cases, if-either,
}
use ha_cluster_state_sync.Dict.{Dict, lookup, insert, lookup-insert, NodupKeys, insert-NodupKeys}
use ha_cluster_state_sync.Fileset.Sealing.{Bytes, Primitives, blob_ref}
use ha_cluster_state_sync.Fileset.Keyspace.{Keyspace, KeyspaceLaws}
use ha_cluster_state_sync.Fileset.Scan.{
  FileEntry, Directory, Stat, Stated, there, gone, refused, ScanResult, Scanned, scanned, too_large,
  scan_raised, reused, entry_of, with_body, with_prior, with_stat, and_scan, scan_file, scan_files,
  exceeds, is_excluded,
}
use ha_cluster_state_sync.Fileset.Backed.{AllRefs, AllRefs-map, AreNamed}

AllRefs-insert :
    (Q : Text → Type 0) (rel : Text) (e : FileEntry) (es : Dict FileEntry)
    → Q e.ref
    → AllRefs Q es
    → AllRefs Q (insert rel e es)
unfolding insert
AllRefs-insert Q rel e [] q h = (q, tt)
AllRefs-insert Q rel e ((r, x) ∷ es) q (qx, h) =
    if-either (AllRefs Q) (text_eq rel r) _ _ (q, h) (qx, AllRefs-insert Q rel e es q h)

same_ref : (Q : Text → Type 0) (a b : FileEntry) → some a ≡ some b → Q a.ref → Q b.ref
same_ref Q a b h q = let e : a ≡ b = ground arith in subst (λ o. Q (FileEntry.ref o)) e q

pub AllRefs-lookup :
    (Q : Text → Type 0) (rel : Text) (e : FileEntry) (es : Dict FileEntry)
    → AllRefs Q es
    → lookup rel es ≡ some e
    → Q e.ref
unfolding lookup
AllRefs-lookup Q rel e [] h found = absurd (ground (arith, found))
AllRefs-lookup Q rel e ((r, x) ∷ es) (q, h) found = elim (Bool-cases (text_eq rel r)) [
  | inl same ↦ same_ref Q x e (rw same at found) q
  | inr other ↦ AllRefs-lookup Q rel e es h (rw other at found)
]

reused_is :
    (o : Option FileEntry) (stat : Stat) (e : FileEntry) → reused o stat ≡ some e → o ≡ some e
unfolding reused
reused_is o stat e h = ground arith

reused-AllRefs :
    (Q : Text → Type 0) (rel : Text) (es : Dict FileEntry) (stat : Stat) (e : FileEntry)
    → AllRefs Q es
    → reused (lookup rel es) stat ≡ some e
    → Q e.ref
reused-AllRefs Q rel es stat e h r =
    AllRefs-lookup Q rel e es h (reused_is (lookup rel es) stat e r)

inserted {ℓ} :
    {V : Type ℓ} (j k : Text) (v : V) (d : Dict V)
    → (text_eq j k ≡ true) ⊎ (lookup j d ≢ none)
    → lookup j (insert k v d) ≢ none
inserted j k v d h = ground (arith, lookup-insert j k v d)

module _ (p : Primitives) {Server : Type 0} (kv : Keyspace Server) (laws : KeyspaceLaws kv)
    (namespace secret : Text) (key : Bytes) where
  AreNamed-insert :
      (body : Bytes) (bodies : Dict Bytes)
      → AreNamed p kv namespace secret key laws bodies
      → AreNamed p kv namespace secret key laws (insert (blob_ref p secret body) body bodies)
  unfolding insert
  AreNamed-insert body [] h = (refl, tt)
  AreNamed-insert body ((r, b) ∷ bodies) (named, h) =
      elim (Bool-cases (text_eq (blob_ref p secret body) r)) [
        | inl same ↦ rw same ((text_eq_iff (blob_ref p secret body) r).0 same, h)
        | inr other ↦ rw other (named, AreNamed-insert body bodies h)
      ]

  -- A reference whose content has been read in this pass, or that `Q` holds of.
  abbrev pub IsKnown : (Text → Type 0) → Dict Bytes → Text → Type 0
  IsKnown Q bodies ref = (lookup ref bodies ≢ none) ⊎ Q ref

  abbrev pub IsGood : (Text → Type 0) → Scanned → Type 0
  IsGood Q too_large = Unit
  IsGood Q scan_raised = Unit
  IsGood Q (scanned r) =
      AreNamed p kv namespace secret key laws r.bodies
      × AllRefs (IsKnown Q r.bodies) r.entries
      × NodupKeys r.entries

  module _ (Q : Text → Type 0) (d : Directory) (exclusions : List Text) (previous : Dict FileEntry)
      (max_bytes : Option ℕ) (prior : AllRefs Q previous) where
    with_body-IsGood :
        (rel : Text) (stat : Stat) (o : Option Bytes) (r : ScanResult)
        → IsGood Q (scanned r)
        → IsGood Q (with_body p d secret exclusions previous max_bytes rel stat o r)
    with_body-IsGood rel stat none r h = tt
    with_body-IsGood rel stat (some body) r (named, known, nodup) = (
      AreNamed-insert body r.bodies named,
      AllRefs-insert (IsKnown Q (insert (blob_ref p secret body) body r.bodies)) rel
          (entry_of p d secret exclusions previous max_bytes rel stat body) r.entries
          (inl (
            inserted (blob_ref p secret body) (blob_ref p secret body) body r.bodies
              (inl (text_eq_refl (blob_ref p secret body)))))
          (AllRefs-map r.entries
            (λ ref h. elim h [
              | inl read ↦ inl (inserted ref (blob_ref p secret body) body r.bodies (inr read))
              | inr q ↦ inr q
            ])
            known),
      insert-NodupKeys rel (entry_of p d secret exclusions previous max_bytes rel stat body)
          r.entries nodup,
    )

    with_prior-IsGood :
        (rel : Text) (stat : Stat) (o : Option FileEntry) (r : ScanResult)
        → ((e : FileEntry) → o ≡ some e → Q e.ref)
        → IsGood Q (scanned r)
        → IsGood Q (with_prior p d secret exclusions previous max_bytes rel stat o r)
    with_prior-IsGood rel stat none r q h = with_body-IsGood rel stat (d.read_bytes rel) r h
    with_prior-IsGood rel stat (some e) r q (named, known, nodup) = (
      named,
      AllRefs-insert (IsKnown Q r.bodies) rel e r.entries (inr (q e refl)) known,
      insert-NodupKeys rel e r.entries nodup,
    )

    with_stat-IsGood :
        (rel : Text) (st : Stated) (r : ScanResult)
        → IsGood Q (scanned r)
        → IsGood Q (with_stat p d secret exclusions previous max_bytes rel st r)
    with_stat-IsGood rel gone r h = h
    with_stat-IsGood rel refused r h = tt
    with_stat-IsGood rel (there stat) r h =
        if-either (IsGood Q) (exceeds max_bytes (r.total_bytes + stat.st_size)) _ _ tt (
          with_prior-IsGood rel stat (reused (lookup rel previous) stat)
            (record r { total_bytes = r.total_bytes + stat.st_size })
            (λ e. reused-AllRefs Q rel previous stat e prior) h)

    scan_file-IsGood :
        (rel : Text) (r : ScanResult)
        → IsGood Q (scanned r)
        → IsGood Q (scan_file p d secret exclusions previous max_bytes rel r)
    unfolding scan_file
    scan_file-IsGood rel r h =
        if-either (IsGood Q) (is_excluded d rel exclusions) _ _ h
          (with_stat-IsGood rel (d.stat rel) r h)

    and_scan-IsGood :
        (f : ScanResult → Scanned) (t : Scanned)
        → ((r : ScanResult) → IsGood Q (scanned r) → IsGood Q (f r))
        → IsGood Q t
        → IsGood Q (and_scan p d secret exclusions previous max_bytes f t)
    and_scan-IsGood f too_large g h = tt
    and_scan-IsGood f scan_raised g h = tt
    and_scan-IsGood f (scanned r) g h = g r h

    pub scan_files-IsGood :
        (rels : List Text) (r : ScanResult)
        → IsGood Q (scanned r)
        → IsGood Q (scan_files p d secret exclusions previous max_bytes rels r)
    unfolding scan_files
    scan_files-IsGood [] r h = h
    scan_files-IsGood (rel ∷ rels) r h =
        and_scan-IsGood (scan_files p d secret exclusions previous max_bytes rels)
          (scan_file p d secret exclusions previous max_bytes rel r) (λ t. scan_files-IsGood rels t)
          (scan_file-IsGood rel r h)
