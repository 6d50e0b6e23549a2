-- ===== src/Fileset/Scan.antt =====
-- custom_components/cluster_state_sync/fileset.py: `is_excluded`, `_candidates`, `scan`, over what the
-- configuration directory holds.
use ha_cluster_state_sync.Prelude.{
  ℕ, ◌+◌, Bool, false, not, ◌&&◌, ◌||◌, Option, none, some, List, [], ◌∷◌, ◌++◌, Text, codes, ltb,
  ◌==◌, if◌then◌else◌,
}
use ha_cluster_state_sync.Dict.{Dict, contains, lookup, insert}
use ha_cluster_state_sync.Fileset.Sealing.{Bytes, Primitives, blob_ref}

pub record FileEntry : Type 0 where
  pub path : Text
  pub ref : Text
  pub size : ℕ
  pub mode : ℕ
  pub mtime_ns : ℕ

-- `st_size`, `st_mode`, `st_mtime_ns`
pub record Stat : Type 0 where
  pub st_size : ℕ
  pub st_mode : ℕ
  pub st_mtime_ns : ℕ

pub data Stated : Type 0 where
  there : Stat → Stated
  gone : Stated
  refused : Stated

-- The configuration directory while a pass runs, by paths relative to it, as `root / path` reads
-- them. `rglob` gives the paths under a directory, sorted, and `relative_to` the path below the
-- configuration directory, or none for its `ValueError`; `parts` are those of `PurePosixPath`;
-- `read_bytes` is none for an `OSError`;
-- `referenced` is what `includes.scan` found, sorted, or none where it raised.
pub record Directory : Type 0 where
  pub is_file : Text → Bool
  pub is_symlink : Text → Bool
  pub is_dir : Text → Bool
  pub rglob : Text → List Text
  pub relative_to : Text → Option Text
  pub parts : Text → List Text
  pub fnmatch : Text → Text → Bool
  pub stat : Text → Stated
  pub read_bytes : Text → Option Bytes
  pub referenced : Option (List Text)

-- `any(test(x) for x in xs)`
abbrev pub any : (Text → Bool) → List Text → Bool
any test [] = false
any test (x ∷ xs) = test x || any test xs

unfoldable pub is_excluded : Directory → Text → List Text → Bool
is_excluded d rel_path patterns =
    any (λ part. any (λ pattern. d.fnmatch part pattern) patterns) (d.parts rel_path)

-- REPLICATED_DIRS
abbrev pub replicated_dirs : List Text
replicated_dirs =
    codes ".storage" ∷ codes "custom_components" ∷ codes "www" ∷ codes "blueprints" ∷ []

-- REPLICATED_FILES
abbrev pub replicated_files : List Text
replicated_files =
    codes "configuration.yaml"
    ∷ codes "automations.yaml"
    ∷ codes "scripts.yaml"
    ∷ codes "scenes.yaml"
    ∷ codes "secrets.yaml"
    ∷ codes "customize.yaml"
    ∷ codes "groups.yaml"
    ∷ []

module _ (d : Directory) where
  -- `found`, whose paths are also `seen`
  unfoldable pub add_file : Text → List Text → List Text
  unfolding contains
  add_file rel found =
      if contains rel found
      then found
      else if d.is_file rel && not (d.is_symlink rel)
      then found ++ (rel ∷ [])
      else found

  -- The names of REPLICATED_FILES.
  unfoldable pub add_files : List Text → List Text → List Text
  unfolding add_file
  add_files [] found = found
  add_files (rel ∷ rels) found = add_files rels (add_file rel found)

  -- None is the `ValueError` of a path that is not below the configuration directory.
  abbrev and_found : (List Text → Option (List Text)) → Option (List Text) → Option (List Text)
  and_found f none = none
  and_found f (some found) = f found

  abbrev add_relative : Option Text → List Text → Option (List Text)
  add_relative none found = none
  add_relative (some rel) found = some (add_file rel found)

  abbrev add_path : Text → List Text → Option (List Text)
  add_path path found =
      if d.is_file path && not (d.is_symlink path)
      then add_relative (d.relative_to path) found
      else some found

  unfoldable pub add_paths : List Text → List Text → Option (List Text)
  unfolding add_file
  add_paths [] found = some found
  add_paths (path ∷ paths) found = and_found (add_paths paths) (add_path path found)

  unfoldable pub add_tree : Text → List Text → Option (List Text)
  unfolding add_paths
  add_tree base found = if d.is_dir base then add_paths (d.rglob base) found else some found

  unfoldable pub add_trees : List Text → List Text → Option (List Text)
  unfolding add_tree
  add_trees [] found = some found
  add_trees (base ∷ bases) found = and_found (add_trees bases) (add_tree base found)

  -- What the configuration references: a directory or a file.
  unfoldable pub add_targets : List Text → List Text → Option (List Text)
  unfolding add_tree add_file
  add_targets [] found = some found
  add_targets (rel ∷ rels) found =
      and_found (add_targets rels)
        (if d.is_dir rel then add_tree rel found else some (add_file rel found))

  -- The operator's own list.
  unfoldable pub add_extra : List Text → List Text → Option (List Text)
  unfolding add_tree add_file
  add_extra [] found = some found
  add_extra (rel ∷ rels) found = and_found (add_extra rels) (
      if d.is_dir rel
      then add_tree rel found
      else if d.is_file rel
      then some (add_file rel found)
      else some found)

  unfoldable pub floor : Option (List Text)
  unfolding add_files add_trees
  floor =
      and_found (λ found. some (add_files replicated_files found)) (add_trees replicated_dirs [])

  abbrev candidates_from : Option (List Text) → List Text → List Text → Option (List Text)
  candidates_from none extra found = some found
  candidates_from (some paths) extra found = and_found (add_extra extra) (add_targets paths found)

  unfoldable pub candidates : List Text → Option (List Text)
  unfolding floor add_targets add_extra
  candidates extra = and_found (candidates_from d.referenced extra) floor

-- A pass over the directory: what it found, `FilesetTooLarge`, or another exception, an `OSError`
-- or the `ValueError` of `relative_to`.
pub record ScanResult : Type 0 where
  pub entries : Dict FileEntry
  pub bodies : Dict Bytes
  pub total_bytes : ℕ

pub data Scanned : Type 0 where
  scanned : ScanResult → Scanned
  too_large : Scanned
  scan_raised : Scanned

abbrev pub exceeds : Option ℕ → ℕ → Bool
exceeds none total = false
exceeds (some max_bytes) total = ltb max_bytes total

unfoldable pub is_unchanged : FileEntry → Stat → Bool
is_unchanged prior stat =
    prior.size == stat.st_size && (prior.mode == stat.st_mode && prior.mtime_ns == stat.st_mtime_ns)

-- The prior entry of a file that the quick check takes for unchanged.
unfoldable pub reused : Option FileEntry → Stat → Option FileEntry
unfolding is_unchanged
reused none stat = none
reused (some prior) stat = if is_unchanged prior stat then some prior else none

module _ (p : Primitives) (d : Directory) (secret : Text) (exclusions : List Text)
    (previous : Dict FileEntry) (max_bytes : Option ℕ) where
  abbrev pub entry_of : Text → Stat → Bytes → FileEntry
  entry_of rel stat body = record {
    path = rel;
    ref = blob_ref p secret body;
    size = stat.st_size;
    mode = stat.st_mode;
    mtime_ns = stat.st_mtime_ns;
  }

  abbrev pub with_body : Text → Stat → Option Bytes → ScanResult → Scanned
  with_body rel stat none r = scan_raised
  with_body rel stat (some body) r = scanned (record r {
    entries = insert rel (entry_of rel stat body) r.entries;
    bodies = insert (blob_ref p secret body) body r.bodies;
  })

  abbrev pub with_prior : Text → Stat → Option FileEntry → ScanResult → Scanned
  with_prior rel stat (some prior) r = scanned (record r { entries = insert rel prior r.entries })
  with_prior rel stat none r = with_body rel stat (d.read_bytes rel) r

  abbrev pub with_stat : Text → Stated → ScanResult → Scanned
  with_stat rel gone r = scanned r
  with_stat rel refused r = scan_raised
  with_stat rel (there stat) r =
      let total = r.total_bytes + stat.st_size in
      if exceeds max_bytes total
      then too_large
      else with_prior rel stat (reused (lookup rel previous) stat)
          (record r { total_bytes = total })

  -- One turn of the loop.
  unfoldable pub scan_file : Text → ScanResult → Scanned
  unfolding is_excluded lookup insert reused
  scan_file rel r = if is_excluded d rel exclusions then scanned r else with_stat rel (d.stat rel) r

  abbrev pub and_scan : (ScanResult → Scanned) → Scanned → Scanned
  and_scan f (scanned r) = f r
  and_scan f too_large = too_large
  and_scan f scan_raised = scan_raised

  unfoldable pub scan_files : List Text → ScanResult → Scanned
  unfolding scan_file
  scan_files [] r = scanned r
  scan_files (rel ∷ rels) r = and_scan (scan_files rels) (scan_file rel r)

  abbrev pub nothing_yet : ScanResult
  nothing_yet = record { entries = []; bodies = []; total_bytes = 0 }

  abbrev pub scan_candidates : Option (List Text) → Scanned
  scan_candidates none = scan_raised
  scan_candidates (some rels) = scan_files rels nothing_yet

  unfoldable pub scan : (extra_paths : List Text) → Scanned
  unfolding candidates scan_files
  scan extra_paths = scan_candidates (candidates d extra_paths)
