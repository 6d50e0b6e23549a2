-- ===== src/Hold/Tests.antt =====
-- Concrete holds: one that a person raised on node "b", and one of a restart.
use ha_cluster_state_sync.Prelude.{
  ◌≡◌, ◌⊎◌, refl, true, false, Option, none, some, [], ◌∷◌, List, Text, codes, ℕ, arith,
  starts_with,
}
use ha_cluster_state_sync.Str.{strip, lstrip, rstrip, is_space, is_break, lower}
use ha_cluster_state_sync.Promoter.World.{utf8, ok, err, Failure}
use ha_cluster_state_sync.Promoter.Holds.{text_is_expired, past}
use ha_cluster_state_sync.Hold.Format.{join_lines, hold_body, hold_origin, hold_deadline, reason_of}
use ha_cluster_state_sync.Hold.Lines.{IsWord}
use ha_cluster_state_sync.Hold.RoundTrip.{IsReason, hold_body-round_trip}
use ha_cluster_state_sync.Hold.Agreement.{IsHuman, read_by, hold_body-agreement}
use ha_cluster_state_sync.Hold.Files.{
  Disk, done, cut_off, is_held, hold_text, set_hold, clear_hold, set_auto_hold, clear_auto_hold,
  contains, auto_hold_marker,
}
use ha_cluster_state_sync.Hold.Auto.{
  set_hold-whole, Event, shutdown, start, weather, history, history-stays, auto_hold-cycle,
}
use ha_cluster_state_sync.Promoter.Holds

abbrev node_b : Text
node_b = codes "b"

abbrev noon : Text
noon = codes "12:00"

node_b-IsWord : IsWord node_b
unfolding lstrip rstrip is_space is_break
node_b-IsWord = record { one_line = (refl, tt); nonempty = ground arith; left = refl; right = refl }

noon-IsWord : IsWord noon
unfolding lstrip rstrip is_space is_break
noon-IsWord = record {
  one_line = (refl, (refl, (refl, (refl, (refl, tt)))));
  nonempty = ground arith;
  left = refl;
  right = refl;
}

abbrev reason : Text
reason = codes "disk"

reason-IsReason : IsReason reason (codes "swap" ∷ [])
unfolding strip lstrip rstrip is_space is_break starts_with join_lines
reason-IsReason = record {
  one_line = ((refl, (refl, (refl, (refl, tt)))), ((refl, (refl, (refl, (refl, tt)))), tt));
  unstructured = (refl, (refl, tt));
  stripped = refl;
  nonempty = ground arith;
}

line-IsHuman : IsHuman reason
unfolding strip lstrip rstrip is_space lower starts_with
line-IsHuman = record { no_origin = refl; no_deadline = refl }

next-IsHuman : IsHuman (codes "swap")
unfolding strip lstrip rstrip is_space lower starts_with
next-IsHuman = record { no_origin = refl; no_deadline = refl }

abbrev body : Text
body = hold_body (join_lines (reason ∷ codes "swap" ∷ [])) (some node_b) (some noon)

body_lem : body ≡ codes "disk\nswap\norigin: b\nexpires: 12:00\n"
unfolding hold_body join_lines strip lstrip rstrip is_space
body_lem = refl

hold_body-round_trip_example :
    (hold_origin body ≡ some node_b)
    × (hold_deadline body ≡ some noon)
    × (reason_of body ≡ join_lines (reason ∷ codes "swap" ∷ []))
hold_body-round_trip_example =
    hold_body-round_trip reason (codes "swap" ∷ []) (some node_b) (some noon) reason-IsReason
      node_b-IsWord noon-IsWord

abbrev at_noon : Text → Option ℕ
at_noon t = some 12

hold_body-agreement_example :
    (Holds.hold_origin body ≡ some node_b)
    × (text_is_expired at_noon 13 body ≡ past (read_by at_noon (some noon)) 13)
hold_body-agreement_example =
    hold_body-agreement at_noon 13 reason (codes "swap" ∷ []) (some node_b) (some noon)
      reason-IsReason (line-IsHuman, (next-IsHuman, tt)) node_b-IsWord noon-IsWord

abbrev empty_disk : Disk
empty_disk = record {
  hold_file = none;
  tmp_file = none;
  stat_refused = false;
  read_refused = false;
  write = done;
  replace_refused = false;
  unlink_refused = false;
}

abbrev held_disk : Disk
held_disk = record empty_disk { hold_file = some (utf8 reason); write = cut_off (utf8 []) }

set_hold-whole_example :
    ((((set_hold noon none held_disk).0 ≡ ok tt)
        × ((set_hold noon none held_disk).1.hold_file ≡ some (utf8 (hold_body noon none none))))
      ⊎ (((set_hold noon none held_disk).0 ≡ err Failure.os_error)
          × ((set_hold noon none held_disk).1.hold_file ≡ held_disk.hold_file)))
    × ((((clear_hold held_disk).0 ≡ ok tt) × ((clear_hold held_disk).1.hold_file ≡ none))
        ⊎ (((clear_hold held_disk).0 ≡ err Failure.os_error)
            × ((clear_hold held_disk).1.hold_file ≡ held_disk.hold_file)))
set_hold-whole_example = set_hold-whole noon none held_disk

abbrev isoformat : ℕ → Text
isoformat now = noon

abbrev events : List Event
events = start ∷ shutdown 1 300 (some node_b) ∷ weather false false false false done ∷ start ∷ []

held_disk-manual : contains auto_hold_marker reason ≡ false
unfolding contains starts_with
held_disk-manual = refl

history-stays_example : (history isoformat events held_disk).hold_file ≡ some (utf8 reason)
history-stays_example = history-stays isoformat events (utf8 reason) held_disk refl held_disk-manual

auto_hold-cycle_example :
    let held = set_auto_hold isoformat 1 300 (some node_b) empty_disk in
    (held.0 ≡ true)
    × (is_held held.1 ≡ true)
    × (hold_origin (hold_text held.1) ≡ some node_b)
    × (hold_deadline (hold_text held.1) ≡ some noon)
    × ((clear_auto_hold held.1).0 ≡ true)
    × (is_held (clear_auto_hold held.1).1 ≡ false)
auto_hold-cycle_example =
    auto_hold-cycle isoformat 1 300 (some node_b) empty_disk
      (record {
        no_file = refl;
        stat_allowed = refl;
        read_allowed = refl;
        unlink_allowed = refl;
        written_whole = refl;
      })
      node_b-IsWord noon-IsWord
