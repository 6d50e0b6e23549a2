-- ===== src/Identity/Tests.antt =====
-- A standby that takes the go-bag of its leader and keeps its own `node_id`.
use ha_cluster_state_sync.Prelude.{
  ◌≡◌, refl, arith, true, none, some, List, [], ◌∷◌, Text, codes, text_eq, length,
}
use ha_cluster_state_sync.Fileset.Json.{str}
use ha_cluster_state_sync.Identity.{
  Entry, Payload, broken, Disk, store, exit_failed, exit_ok, own_entries, other_entries, capture,
  restore, cluster_wide_fields, effective, inherit_cluster_wide,
}
use ha_cluster_state_sync.Identity.Kept.{nth, effective_in, id_in, unread_in, IsKept}
use ha_cluster_state_sync.Identity.Swap.{
  none_refused, live, swapped, entries_in, swap-keeps, IsOutcome, restore-IsOutcome,
}

abbrev node_id : Text
node_id = codes "node_id"

abbrev own_of : (node url id : Text) → Entry
own_of node url id = record {
  domain = codes "cluster_state_sync";
  entry_id = some id;
  «data» = some ((node_id, str node) ∷ []);
  options = some ((codes "ingress_url", str url) ∷ []);
  others = (codes "unique_id", str node) ∷ [];
}

abbrev other : Entry
other = record {
  domain = codes "mqtt";
  entry_id = some (codes "m");
  «data» = none;
  options = none;
  others = [];
}

abbrev payload_of : List Entry → Payload
payload_of es = record { envelope = []; rest = []; entries = es }

abbrev mine : Payload
mine = payload_of (own_of (codes "b") (codes "old") (codes "01B") ∷ [])

abbrev theirs : Payload
theirs = payload_of (other ∷ (own_of (codes "a") (codes "new") (codes "01A") ∷ []))

abbrev after : Disk
after = (restore (swapped theirs (capture (live mine broken)).1)).1

-- Its own identity, the URL of the cluster, the identifier of the go-bag.
kept :
    (effective_in node_id (nth 0 (own_entries (entries_in after))) ≡ some (str (codes "b")))
    × (effective_in (codes "ingress_url") (nth 0 (own_entries (entries_in after)))
        ≡ some (str (codes "new")))
    × (id_in (nth 0 (own_entries (entries_in after))) ≡ some (codes "01A"))
unfolding restore capture own_entries effective inherit_cluster_wide cluster_wide_fields text_eq
kept = (refl, refl, refl)

one_own : (length (own_entries mine.entries) ≡ 1) × (length (own_entries theirs.entries) ≡ 1)
unfolding own_entries text_eq
one_own = (refl, refl)

-- No other field of the peer.
unread :
    unread_in (nth 0 (own_entries (entries_in after)))
    ≡ some (
      codes "cluster_state_sync",
      some ((node_id, str (codes "b")) ∷ []),
      (codes "unique_id", str (codes "b")) ∷ [],
    )
unfolding restore capture own_entries inherit_cluster_wide cluster_wide_fields text_eq
unread = refl

swap-keeps_example :
    ((restore (swapped theirs (capture (live mine broken)).1)).0 ≡ exit_ok)
    × ((new : List Entry) × (after.store_file ≡ store (record theirs { entries = new }))
        × (other_entries new ≡ other_entries theirs.entries)
        × IsKept 0 node_id
            (own_entries mine.entries)
            (own_entries theirs.entries)
            (own_entries new))
swap-keeps_example =
    swap-keeps mine theirs broken 0 node_id (omega (arith, one_own)) (omega (arith, one_own))

-- `os.replace` is refused, and so is the `unlink` after it: the scratch file stays behind.
abbrev stuck : Disk
stuck = record (swapped theirs (capture (live mine broken)).1) {
  refusals = record none_refused { replacing = true; unlinking = true };
}

stuck_leaves : ((restore stuck).0 ≡ exit_failed) × ((restore stuck).1.store_file ≡ store theirs)
unfolding restore capture own_entries inherit_cluster_wide cluster_wide_fields text_eq
stuck_leaves = (refl, refl)

restore-IsOutcome_example :
    IsOutcome 0 node_id
      (swapped theirs (capture (live mine broken)).1)
      (restore (swapped theirs (capture (live mine broken)).1))
restore-IsOutcome_example =
    restore-IsOutcome (swapped theirs (capture (live mine broken)).1) 0 node_id
