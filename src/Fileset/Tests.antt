-- ===== src/Fileset/Tests.antt =====
-- Two files of a leader, published and pulled on the concrete server and primitives; a server that has
-- lost the blobs; paths outside the configuration directory.
use ha_cluster_state_sync.Prelude.{
  ℕ, ◌≡◌, refl, inl, Bool, true, false, ◌||◌, ℤ, Option, none, some, List, [], ◌∷◌, Text, codes,
  text_eq, starts_with, length, if◌then◌else◌,
}
use ha_cluster_state_sync.Dict.{keys, lookup, sorted}
use ha_cluster_state_sync.Fileset.Sealing.{Bytes, derive_fileset_key, blob_ref}
use ha_cluster_state_sync.Fileset.Paths.{is_above}
use ha_cluster_state_sync.Fileset.Mock.{Mock, mock, mock-laws}
use ha_cluster_state_sync.Fileset.Codec.{primitives, primitives-laws}
use ha_cluster_state_sync.Fileset.Scan.{
  Directory, there, gone, ScanResult, Scanned, scanned, candidates, scan,
}
use ha_cluster_state_sync.Fileset.Stored.{Write, Prune}
use ha_cluster_state_sync.Fileset.Publisher.{
  FilesetPublisher, Pass, Published, fileset_publisher, scan_of, async_publish,
}
use ha_cluster_state_sync.Fileset.Backed.{IsReadable}
use ha_cluster_state_sync.Fileset.History.{Event, publish, restart, history, history-IsReadable}
use ha_cluster_state_sync.Fileset.Pull.{Staged, Pulled, pull_error, root, restore_fileset}
use ha_cluster_state_sync.Fileset.Atomic.{Accounted, restore_fileset-Accounted}
use ha_cluster_state_sync.Fileset.Building.{is_placeable, Delivers}
use ha_cluster_state_sync.Fileset.Delivery.{willing, staged_at, IsRestored}
use ha_cluster_state_sync.Fileset.Replication.{publish_pull-Delivers}

abbrev int_of_text : Text → Option ℤ
int_of_text t = none

abbrev auth : Text
auth = codes ".storage/auth"

abbrev configuration : Text
configuration = codes "configuration.yaml"

abbrev is_there : Text → Bool
is_there rel = text_eq rel auth || text_eq rel configuration

abbrev body_of : Text → Option Bytes
body_of rel =
    if text_eq rel auth
    then some (1 ∷ 2 ∷ [])
    else if text_eq rel configuration
    then some (3 ∷ [])
    else none

abbrev elsewhere : Text
elsewhere = codes "/srv/share"

abbrev foreign : Text
foreign = codes "/srv/share/file"

abbrev directory : Directory
directory = record {
  is_file = is_there;
  is_symlink = λ rel. false;
  is_dir = λ rel. text_eq rel (codes ".storage");
  rglob = λ rel. if text_eq rel elsewhere then foreign ∷ [] else auth ∷ [];
  relative_to = λ path. if text_eq path foreign then none else some path;
  parts = λ rel. rel ∷ [];
  fnmatch = λ part pattern. text_eq part pattern;
  stat = λ rel.
      if is_there rel
      then there (record { st_size = 2; st_mode = 33152; st_mtime_ns = 5 })
      else gone;
  read_bytes = body_of;
  referenced = some [];
}

abbrev nonces : ℕ → Bytes
nonces n = n ∷ 0 ∷ 0 ∷ 0 ∷ 0 ∷ 0 ∷ 0 ∷ 0 ∷ 0 ∷ 0 ∷ 0 ∷ 0 ∷ []

abbrev pass : Write → Prune → Pass
pass write prune = record {
  directory = directory;
  urandom = nonces;
  now = 7;
  ts = codes "now";
  write = write;
  prune = prune;
}

abbrev stored_pass : Pass
stored_pass = pass Write.done Prune.done

abbrev twelve : (n : ℕ) → length (nonces n) ≡ 12
twelve n = refl

abbrev namespace : Text
namespace = codes "home"

abbrev secret : Text
secret = codes "s"

publisher : FilesetPublisher
unfolding fileset_publisher
publisher = fileset_publisher primitives (codes "a") secret [] [] 1000

abbrev result_of : Scanned → ScanResult
result_of (scanned r) = r
result_of t = record { entries = []; bodies = []; total_bytes = 0 }

found : ScanResult
unfolding publisher scan
found = result_of (scan_of primitives mock namespace stored_pass publisher)

abbrev empty : Staged
empty = record {
  storage = none;
  previous = none;
  incoming = none;
  verify_failed = true;
  status = none;
}

both_found : scan_of primitives mock namespace stored_pass publisher ≡ scanned found
unfolding publisher found scan primitives blob_ref text_eq
both_found = refl

roomy :
    is_placeable
      (root primitives int_of_text mock namespace publisher.key (willing []))
      (sorted found.entries)
    ≡ true
unfolding publisher found scan primitives blob_ref text_eq is_placeable sorted
roomy = refl

publish_pull-Delivers_example :
    IsRestored
      (restore_fileset primitives int_of_text mock namespace publisher.key
        (willing [])
        (async_publish primitives mock namespace stored_pass publisher []).1.1
        empty)
      1
    × Delivers (blob_ref primitives publisher.secret) (lookup auth found.entries) none (
        staged_at auth
          (restore_fileset primitives int_of_text mock namespace publisher.key
            (willing [])
            (async_publish primitives mock namespace stored_pass publisher []).1.1
            empty).1)
unfolding publisher fileset_publisher lookup
publish_pull-Delivers_example =
    publish_pull-Delivers primitives primitives-laws int_of_text mock mock-laws namespace []
      stored_pass twelve auth publisher found [] empty (tt, tt, inl refl) both_found refl roomy

abbrev pulled : Mock → Pulled × Staged
pulled =
    λ s. restore_fileset primitives int_of_text mock namespace publisher.key (willing []) s empty

-- The file of the leader, with its mode.
auth_arrives :
    staged_at auth (pulled (async_publish primitives mock namespace stored_pass publisher []).1.1).1
    ≡ some (record { body = 1 ∷ 2 ∷ []; file_mode = 384 })
unfolding publisher staged_at restore_fileset async_publish scan primitives text_eq keys blob_ref
    starts_with is_above
auth_arrives = refl

-- A second pass over the same files, after the server has lost what it had.
abbrev after_loss : Published × (FilesetPublisher × Mock)
after_loss =
    async_publish primitives mock namespace stored_pass
      (async_publish primitives mock namespace stored_pass publisher []).1.0 []

-- The pass reports success, and the pull finds no blobs.
after_loss-missing :
    ((pulled after_loss.1.1).0 ≡ pull_error)
    × (after_loss.1.0.last_success_at ≡ some 7)
    × (after_loss.1.0.generation ≡ 2)
unfolding publisher restore_fileset async_publish scan primitives text_eq keys blob_ref starts_with
after_loss-missing = (refl, refl, refl)

-- The operator's list names a file beside the configuration directory.
abbrev beside : Text
beside = codes "../secret"

abbrev wide_directory : Directory
wide_directory = record directory {
  is_file = λ rel. is_there rel || text_eq rel beside;
  stat = λ rel. there (record { st_size = 2; st_mode = 33152; st_mtime_ns = 5 });
  read_bytes = λ rel. some (9 ∷ []);
}

wide_publisher : FilesetPublisher
unfolding fileset_publisher
wide_publisher = fileset_publisher primitives (codes "a") secret [] (beside ∷ []) 1000

abbrev wide : Published × (FilesetPublisher × Mock)
wide =
    async_publish primitives mock namespace (record stored_pass { directory = wide_directory })
      wide_publisher []

-- The pass reports success, and the pull refuses the whole manifest.
wide-refused :
    ((pulled wide.1.1).0 ≡ pull_error)
    × ((pulled wide.1.1).1.storage ≡ none)
    × (wide.1.0.last_success_at ≡ some 7)
unfolding publisher wide_publisher restore_fileset async_publish scan primitives text_eq keys
    blob_ref starts_with
wide-refused = (refl, refl, refl)

-- The operator's list names a directory elsewhere, by its absolute path: the pass raises.
abbrev far_directory : Directory
far_directory = record directory {
  is_file = λ rel. is_there rel || text_eq rel foreign;
  is_dir = λ rel. text_eq rel elsewhere;
}

far-raises : candidates far_directory (elsewhere ∷ []) ≡ none
unfolding candidates text_eq
far-raises = refl

restore_fileset-Accounted_example :
    Accounted primitives int_of_text mock namespace publisher.key
      (willing [])
      auth
      (async_publish primitives mock namespace stored_pass publisher []).1.1
      empty
      (pulled (async_publish primitives mock namespace stored_pass publisher []).1.1)
restore_fileset-Accounted_example =
    restore_fileset-Accounted primitives int_of_text mock namespace publisher.key (willing []) auth
      (async_publish primitives mock namespace stored_pass publisher []).1.1 empty

abbrev life : List Event
life =
    publish stored_pass twelve
    ∷ (publish (pass Write.manifest_lost Prune.done) twelve
        ∷ (restart
            ∷ (publish (pass (Write.blobs_failed (true ∷ [])) Prune.done) twelve
                ∷ (publish (pass Write.done Prune.reply_lost) twelve ∷ []))))

history-IsReadable_example :
    IsReadable primitives mock namespace secret
      (derive_fileset_key primitives secret)
      (history primitives mock namespace life
        (fileset_publisher primitives (codes "a") secret [] [] 1000, [])).1
unfolding lookup
history-IsReadable_example =
    history-IsReadable primitives mock namespace mock-laws (codes "a") secret [] [] 1000 life []
      (inl refl)
