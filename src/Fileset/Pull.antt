-- ===== src/Fileset/Pull.antt =====
-- custom_components/cluster_state_sync/scripts/fileset_pull.py: `restore_fileset`, with what
-- the operating system refuses.
use ha_cluster_state_sync.Prelude.{
  ℕ, ◌-◌, ◌%◌, ℤ, pos, negsuc, Bool, true, false, ◌&&◌, ◌||◌, Option, none, some, List, [], ◌∷◌,
  Text, codes, length, if◌then◌else◌,
}
use ha_cluster_state_sync.Dict.{Dict, lookup, insert, sorted}
use ha_cluster_state_sync.Fileset.Sealing.{
  Bytes, Primitives, blob_aad, manifest_aad, open_sealed, fileset_manifest_key, fileset_blob_key,
}
use ha_cluster_state_sync.Fileset.Keyspace.{Keyspace}
use ha_cluster_state_sync.Fileset.Paths.{target_of, is_above}
use ha_cluster_state_sync.Fileset.Parsed.{
  Tried, fine, bad, overflow, and_try, or_bad, PullEntry, Parsed, parsed, refs,
}

pub record StagedFile : Type 0 where
  pub body : Bytes
  pub file_mode : ℕ

abbrev pub Tree : Type 0
Tree = Dict StagedFile

pub record PullStatus : Type 0 where
  pub generation : ℤ
  pub files : ℕ
  pub fetched : ℕ

-- The staging directory: `storage`, which a promotion installs, `.previous`, `.incoming`, the file
-- `verify_failed`, and `status.json`.
pub record Staged : Type 0 where
  pub storage : Option Tree
  pub previous : Option Tree
  pub incoming : Option Tree
  pub verify_failed : Bool
  pub status : Option PullStatus

-- What the connection and the operating system refuse. `mkdir_refused` is about the staging
-- directory, its mode too, and `write_refused` about a file, its folder and its mode. A tree whose
-- removal is refused is left with what the removal has not reached.
pub record Host : Type 0 where
  pub staged_dir : List Text
  pub get_refused : Bool
  pub mget_refused : Bool
  pub mkdir_refused : Bool
  pub write_marker_refused : Bool
  pub rmtree_incoming : Option Tree
  pub mkdir_incoming_refused : Bool
  pub mkdir_root_refused : Bool
  pub write_refused : Text → Bool
  pub rmtree_previous : Option Tree
  pub rename_final_refused : Bool
  pub rename_incoming_refused : Bool
  pub rmtree_last : Option Tree
  pub unlink_refused : Bool
  pub write_status_refused : Bool

-- A `PullError`, which `main` reports, or any other exception.
pub data Pulled : Type 0 where
  restored : PullStatus → Pulled
  pull_error : Pulled
  crash : Pulled

-- `mode & 0o777`
abbrev pub mode_bits : ℤ → ℕ
mode_bits (pos n) = n % 512
mode_bits (negsuc n) = 511 - n % 512

-- The tree of the manifest's files, or the exception and what has been written whole till then.
pub data Built : Type 0 where
  built : Tree → Built
  escaped : Tree → Built
  stopped : Tree → Built

-- A path that is a directory already, or one below a file.
abbrev pub conflicts : Text → Tree → Bool
conflicts t [] = is_above t []
conflicts t ((path, f) ∷ tree) = (is_above t path || is_above path t) || conflicts t tree

pub data Fetched : Type 0 where
  fetched : Dict Bytes → Fetched
  missing : Fetched
  not_authentic : Fetched
  not_base64 : Fetched

module _ (p : Primitives) (int_of_text : Text → Option ℤ) {Server : Type 0} (kv : Keyspace Server)
    (namespace : Text) (key : Bytes) (host : Host) where
  abbrev pub root : List Text
  root = codes "storage" ∷ codes ".incoming" ∷ host.staged_dir

  abbrev pub opened : Text → Option Bytes → Fetched → Fetched
  opened ref none rest = not_authentic
  opened ref (some body) (fetched bodies) = fetched ((ref, body) ∷ bodies)
  opened ref (some body) rest = rest

  abbrev pub decoded : Text → Option Bytes → Fetched → Fetched
  decoded ref none rest = not_base64
  decoded ref (some sealed) rest = opened ref (open_sealed p key sealed (blob_aad p ref)) rest

  abbrev pub answered : Text → Option Text → Fetched → Fetched
  answered ref none rest = missing
  answered ref (some value) rest = decoded ref (p.b64decode value) rest

  -- The blobs in the order of their references; the first that fails ends it.
  unfoldable pub fetch : List Text → Server → Fetched
  unfolding open_sealed blob_aad fileset_blob_key
  fetch [] s = fetched []
  fetch (ref ∷ refs) s =
      let rest = fetch refs s in answered ref (kv.get (fileset_blob_key namespace ref) s) rest

  abbrev pub written : Text → PullEntry → Option Bytes → Tree → Built
  written t e none tree = stopped tree
  written t e (some body) tree =
      if host.write_refused t || conflicts t tree
      then stopped tree
      else built (insert t (record { body = body; file_mode = mode_bits e.mode }) tree)

  abbrev pub placed : Option Text → PullEntry → Dict Bytes → Tree → Built
  placed none e bodies tree = escaped tree
  placed (some t) e bodies tree = written t e (lookup e.ref bodies) tree

  abbrev pub and_build : (Tree → Built) → Built → Built
  and_build f (built tree) = f tree
  and_build f (escaped tree) = escaped tree
  and_build f (stopped tree) = stopped tree

  unfoldable pub build : Dict PullEntry → Dict Bytes → Tree → Built
  unfolding target_of lookup insert
  build [] bodies tree = built tree
  build ((rel, e) ∷ es) bodies tree =
      and_build (build es bodies) (placed (target_of root rel) e bodies tree)

  abbrev pub marked : Staged → Pulled × Staged
  marked d =
      if host.write_marker_refused
      then (crash, d)
      else (pull_error, record d { verify_failed = true })

  -- The end of `restore_fileset`, from the last step backwards.
  abbrev pub write_status : PullStatus → Staged → Pulled × Staged
  write_status status d =
      if host.write_status_refused
      then (crash, d)
      else (restored status, record d { status = some status })

  abbrev pub clear_marker : PullStatus → Staged → Pulled × Staged
  clear_marker status d =
      if d.verify_failed && host.unlink_refused
      then (crash, d)
      else write_status status (record d { verify_failed = false })

  abbrev pub rename_incoming : Tree → PullStatus → Staged → Pulled × Staged
  rename_incoming tree status d =
      if host.rename_incoming_refused
      then (crash, d)
      else clear_marker status (record d { storage = some tree; incoming = host.rmtree_last })

  abbrev pub rename_final : Option Tree → Tree → PullStatus → Staged → Pulled × Staged
  rename_final none tree status d = rename_incoming tree status d
  rename_final (some final) tree status d =
      if host.rename_final_refused
      then (crash, d)
      else rename_incoming tree status (record d { previous = some final; storage = none })

  abbrev pub remove_previous : Option Tree → Tree → PullStatus → Staged → Pulled × Staged
  remove_previous none tree status d = rename_final d.storage tree status d
  remove_previous (some previous) tree status d = elim host.rmtree_previous [
    | none ↦ rename_final d.storage tree status (record d { previous = none })
    | some left ↦ (crash, record d { previous = some left })
  ]

  abbrev pub install : Built → PullStatus → Staged → Pulled × Staged
  install (escaped tree) status d = (pull_error, record d { incoming = some tree })
  install (stopped tree) status d = (crash, record d { incoming = some tree })
  install (built tree) status d =
      remove_previous d.previous tree status (record d { incoming = some tree })

  abbrev pub status_of : Parsed → Dict Bytes → PullStatus
  status_of m bodies = record {
    generation = m.generation;
    files = length m.entries;
    fetched = length bodies;
  }

  abbrev pub with_blobs : Parsed → Fetched → Staged → Pulled × Staged
  with_blobs m missing d = (pull_error, d)
  with_blobs m not_authentic d = marked d
  with_blobs m not_base64 d = (crash, d)
  with_blobs m (fetched bodies) d =
      if host.mkdir_root_refused
      then (crash, d)
      else install (build (sorted m.entries) bodies []) (status_of m bodies) d

  abbrev pub fetch_blobs : Parsed → Server → Staged → Pulled × Staged
  fetch_blobs m s d =
      if host.mget_refused then (pull_error, d) else with_blobs m (fetch (refs m.entries) s) d

  abbrev pub make_incoming : Parsed → Server → Staged → Pulled × Staged
  make_incoming m s d =
      if host.mkdir_incoming_refused
      then (crash, record d { incoming = none })
      else fetch_blobs m s (record d { incoming = some [] })

  -- `.incoming` is made anew before the blobs are asked for.
  abbrev pub fresh_incoming : Option Tree → Parsed → Server → Staged → Pulled × Staged
  fresh_incoming none m s d = make_incoming m s d
  fresh_incoming (some tree) m s d = elim host.rmtree_incoming [
    | none ↦ make_incoming m s d
    | some left ↦ (crash, record d { incoming = some left })
  ]

  abbrev pub with_manifest : Tried Parsed → Server → Staged → Pulled × Staged
  with_manifest bad s d = (pull_error, d)
  with_manifest overflow s d = (crash, d)
  with_manifest (fine m) s d = fresh_incoming d.incoming m s d

  -- The manifest's plaintext: UTF-8, JSON, and the fields.
  unfoldable pub parse : Bytes → Tried Parsed
  unfolding parsed
  parse plaintext =
      and_try (λ text. and_try (parsed int_of_text) (or_bad (p.loads text)))
        (or_bad (p.decode plaintext))

  abbrev pub open_manifest : Option Bytes → Server → Staged → Pulled × Staged
  open_manifest none s d = marked d
  open_manifest (some plaintext) s d = with_manifest (parse plaintext) s d

  abbrev pub decode_manifest : Option Bytes → Server → Staged → Pulled × Staged
  decode_manifest none s d = (crash, d)
  decode_manifest (some sealed) s d = open_manifest (open_sealed p key sealed manifest_aad) s d

  abbrev pub with_answer : Option Text → Server → Staged → Pulled × Staged
  with_answer none s d = (pull_error, d)
  with_answer (some value) s d = decode_manifest (p.b64decode value) s d

  unfoldable pub restore_fileset : Server → Staged → Pulled × Staged
  unfolding open_sealed parse fetch build sorted refs fileset_manifest_key
  restore_fileset s d =
      if host.mkdir_refused
      then (crash, d)
      else if host.get_refused
      then (pull_error, d)
      else with_answer (kv.get (fileset_manifest_key namespace) s) s d
