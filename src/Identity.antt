-- ===== src/Identity.antt =====
-- custom_components/cluster_state_sync/scripts/fileset_identity.py: this node's own config entries
-- over a swap of `.storage`.
pub mod Kept
pub mod Swap
mod Tests
use ha_cluster_state_sync.Prelude.{
  ℕ, ◌<◌, Bool, true, false, not, ◌&&◌, ◌||◌, Option, none, some, List, [], ◌∷◌, ◌++◌, Text, codes,
  text_eq, length, ltb, if◌then◌else◌,
}
use ha_cluster_state_sync.Dict.{Dict, lookup, insert}
use ha_cluster_state_sync.Fileset.Json.{Json}

abbrev pub domain_name : Text
domain_name = codes "cluster_state_sync"

-- CLUSTER_WIDE_FIELDS
unfoldable pub cluster_wide_fields : List Text
cluster_wide_fields =
    codes "notify_conditions"
    ∷ codes "notify_services"
    ∷ codes "include_domains"
    ∷ codes "include_entities"
    ∷ codes "exclude_entities"
    ∷ codes "exclude_devices"
    ∷ codes "ingress_url"
    ∷ codes "ingress_verify_tls"
    ∷ codes "cluster_namespace"
    ∷ codes "redis_host"
    ∷ codes "redis_port"
    ∷ codes "redis_db"
    ∷ codes "redis_username"
    ∷ codes "redis_password"
    ∷ codes "redis_use_tls"
    ∷ codes "redis_use_sentinel"
    ∷ codes "redis_sentinel_hosts"
    ∷ codes "redis_sentinel_service"
    ∷ codes "leadership_source"
    ∷ codes "snapshot_interval"
    ∷ codes "restore_max_age"
    ∷ codes "settle_delay"
    ∷ codes "history_database"
    ∷ codes "statistics_enabled"
    ∷ codes "statistics_interval_minutes"
    ∷ codes "statistics_max_bytes"
    ∷ codes "statistics_window_days"
    ∷ codes "fileset_enabled"
    ∷ codes "fileset_exclusions"
    ∷ codes "fileset_extra_paths"
    ∷ codes "fileset_extra_custom"
    ∷ codes "fileset_hot_interval"
    ∷ codes "fileset_max_bytes"
    ∷ codes "fileset_stale_after"
    ∷ codes "recorder_snapshot_enabled"
    ∷ codes "recorder_snapshot_minutes"
    ∷ codes "gate_automations"
    ∷ codes "gate_recorder"
    ∷ []

-- A config entry as Home Assistant writes it: the fields that the program reads, and the others.
pub record Entry : Type 0 where
  pub domain : Text
  pub entry_id : Option Text
  pub «data» : Option (Dict Json)
  pub options : Option (Dict Json)
  pub others : Dict Json

-- A store: the envelope, what else is in `data`, and the entries.
pub record Payload : Type 0 where
  pub envelope : Dict Json
  pub rest : Dict Json
  pub entries : List Entry

-- The file `core.config_entries`: absent, not to be read, not such a store, or one.
pub data StoreFile : Type 0 where
  absent : StoreFile
  unreadable : StoreFile
  malformed : StoreFile
  store : Payload → StoreFile

-- The file of the captured entries.
pub data IdentityFile : Type 0 where
  broken : IdentityFile
  captured : List Entry → IdentityFile

-- The scratch file beside the store, `core.config_entries.identity-tmp`.
pub data Scratch : Type 0 where
  no_scratch : Scratch
  half_written : Scratch
  scratch_of : Payload → Scratch

-- Which steps of a write raise `OSError`; `writing` after the file was emptied.
pub record Refusals : Type 0 where
  pub stating : Bool
  pub opening : Bool
  pub writing : Bool
  pub chmod : Bool
  pub replacing : Bool
  pub unlinking : Bool

pub record Disk : Type 0 where
  pub store_file : StoreFile
  pub store_mode : ℕ
  pub scratch : Scratch
  pub scratch_mode : ℕ
  pub identity_file : IdentityFile
  pub refusals : Refusals

-- EXIT_OK, EXIT_FAILED, EXIT_NO_LOCAL_IDENTITY
pub data Exit : Type 0 where
  exit_ok : Exit
  exit_failed : Exit
  exit_no_local_identity : Exit

abbrev pub is_own : Entry → Bool
is_own e = text_eq e.domain domain_name

unfoldable pub own_entries : List Entry → List Entry
own_entries [] = []
own_entries (e ∷ es) = let rest = own_entries es in if is_own e then e ∷ rest else rest

unfoldable pub other_entries : List Entry → List Entry
other_entries [] = []
other_entries (e ∷ es) = let rest = other_entries es in if is_own e then rest else e ∷ rest

-- `block or {}`
abbrev pub or_empty : Option (Dict Json) → Dict Json
or_empty none = []
or_empty (some d) = d

-- The value of a field in `options`, else in `data`, as the integration reads it.
unfoldable pub effective : Text → Entry → Option Json
unfolding lookup
effective key e = elim (lookup key (or_empty e.options)) [
  | some v ↦ some v
  | none ↦ lookup key (or_empty e.«data»)
]

abbrev pub insert_some : Text → Option Json → Dict Json → Dict Json
insert_some key none d = d
insert_some key (some v) d = insert key v d

-- One turn of the loop for each field.
unfoldable pub inherit_fields : List Text → Entry → Dict Json → Dict Json
unfolding effective insert
inherit_fields [] theirs options = options
inherit_fields (key ∷ keys) theirs options =
    inherit_fields keys theirs (insert_some key (effective key theirs) options)

unfoldable pub inherit_cluster_wide : Entry → Entry → Entry
unfolding inherit_fields
inherit_cluster_wide mine theirs = record mine {
  options = some (inherit_fields cluster_wide_fields theirs (or_empty mine.options));
}

-- An identifier that is absent or empty is not inherited.
abbrev pub with_entry_id : Option Text → Entry → Entry
with_entry_id none mine = mine
with_entry_id (some []) mine = mine
with_entry_id (some (c ∷ t)) mine = record mine { entry_id = some (c ∷ t) }

-- `ours` paired with the entries of the go-bag, by their place.
unfoldable pub rehomed : List Entry → List Entry → List Entry
unfolding inherit_cluster_wide
rehomed [] incoming = []
rehomed (mine ∷ ours) [] = mine ∷ rehomed ours []
rehomed (mine ∷ ours) (theirs ∷ incoming) =
    inherit_cluster_wide (with_entry_id theirs.entry_id mine) theirs ∷ rehomed ours incoming

abbrev pub is_empty : List Entry → Bool
is_empty [] = true
is_empty (e ∷ es) = false

-- None is the refusal of a go-bag with more entries than ours.
unfoldable pub graft_entries : Payload → List Entry → Option Payload
unfolding own_entries other_entries rehomed
graft_entries payload ours =
    if not (is_empty ours) && ltb (length ours) (length (own_entries payload.entries))
    then none
    else some (record payload {
      entries = other_entries payload.entries ++ rehomed ours (own_entries payload.entries);
    })

-- `_write_private`: a `chmod` that is refused comes after the file has been written.
unfoldable pub write_private : List Entry → Disk → Bool × Disk
write_private entries d =
    let r = d.refusals in
    if r.opening
    then (false, d)
    else if r.writing
    then (false, record d { identity_file = broken })
    else (not r.chmod, record d { identity_file = captured entries })

abbrev saved : Bool × Disk → Exit × Disk
saved (true, d) = (exit_ok, d)
saved (false, d) = (exit_failed, d)

-- `capture`, with what `main` makes of its exceptions.
unfoldable pub capture : Disk → Exit × Disk
unfolding write_private own_entries
capture d = elim (d.store_file) [
  | absent ↦ saved (write_private [] d)
  | unreadable ↦ (exit_failed, d)
  | malformed ↦ (exit_failed, d)
  | store payload ↦ saved (write_private (own_entries payload.entries) d)
]

-- 0o600
abbrev pub owner_only : ℕ
owner_only = 384

-- A file that `O_CREAT` finds keeps its mode.
abbrev mode_of_scratch : Scratch → ℕ → ℕ
mode_of_scratch no_scratch mode = owner_only
mode_of_scratch half_written mode = mode
mode_of_scratch (scratch_of payload) mode = mode

-- `os.open` of the scratch file, which empties it.
abbrev pub opened : Disk → Disk
opened d = record d {
  scratch = half_written;
  scratch_mode = mode_of_scratch d.scratch d.scratch_mode;
}

abbrev content_of_scratch : Scratch → StoreFile → StoreFile
content_of_scratch no_scratch f = f
content_of_scratch half_written f = malformed
content_of_scratch (scratch_of payload) f = store payload

-- `os.replace`: what the scratch file holds, in the mode it has.
abbrev pub replaced : Disk → Disk
replaced d = record d {
  store_file = content_of_scratch d.scratch d.store_file;
  store_mode = d.scratch_mode;
  scratch = no_scratch;
}

-- The `except` clause of `_write_store`, whose `unlink` may be refused as well.
abbrev pub dropped : Disk → Bool × Disk
dropped d = (false, record d { scratch = if d.refusals.unlinking then d.scratch else no_scratch })

-- `_write_store`, step by step, over a store that is there.
unfoldable pub write_store : Payload → Disk → Bool × Disk
write_store payload d =
    let r = d.refusals in
    let emptied = opened d in
    let whole = record emptied { scratch = scratch_of payload } in
    let ready = record whole { scratch_mode = d.store_mode } in
    if r.stating || r.opening
    then (false, d)
    else if r.writing
    then dropped emptied
    else if r.chmod
    then dropped whole
    else if r.replacing
    then dropped ready
    else (true, replaced ready)

abbrev pub put_back : List Entry → Bool × Disk → Exit × Disk
put_back ours (false, d) = (exit_failed, d)
put_back ours (true, d) = (if is_empty ours then exit_no_local_identity else exit_ok, d)

abbrev pub with_graft : List Entry → Option Payload → Disk → Exit × Disk
with_graft ours none d = (exit_failed, d)
with_graft ours (some payload) d = put_back ours (write_store payload d)

abbrev pub with_store : List Entry → StoreFile → Disk → Exit × Disk
with_store ours absent d = (exit_failed, d)
with_store ours unreadable d = (exit_failed, d)
with_store ours malformed d = (exit_failed, d)
with_store ours (store payload) d = with_graft ours (graft_entries payload ours) d

-- `restore`, with what `main` makes of its exceptions.
unfoldable pub restore : Disk → Exit × Disk
unfolding graft_entries write_store
restore d = elim (d.identity_file) [
  | broken ↦ (exit_failed, d)
  | captured ours ↦ with_store ours d.store_file d
]
