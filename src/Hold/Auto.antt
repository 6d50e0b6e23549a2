-- ===== src/Hold/Auto.antt =====
-- hold.py: the operations on the flag file, a person's and the automatic ones.
use ha_cluster_state_sync.Prelude.{
  ◌≡◌, refl, ◌⊎◌, Bool, true, false, Option, none, some, List, [], ◌∷◌, ◌++◌, Text, codes, arith, ℕ,
  ◌+◌, ◌*◌, starts_with, not, ◌&&◌,
}
use ha_cluster_state_sync.Str.{strip, lstrip, rstrip, is_space, is_break}
use ha_cluster_state_sync.Promoter.World.{Content, utf8, ok, err, Failure}
use ha_cluster_state_sync.Hold.Format.{join_lines, hold_body, hold_origin, hold_deadline}
use ha_cluster_state_sync.Hold.Lines.{IsWord, IsWordOrNone, IsOneLine}
use ha_cluster_state_sync.Hold.RoundTrip.{IsReason, fields, hold_body-round_trip}
use ha_cluster_state_sync.Hold.Files.{
  Disk, Write, done, is_held, hold_text, replaced, set_hold, clear_hold, auto_hold_body,
  set_auto_hold, clear_auto_hold, contains, auto_hold_marker, auto_hold_reason,
}

-- A person's hold is written whole or not at all: `set_hold` either reports success, and the flag
-- file is the new text, or raises an `OSError`, and the flag file is what it was, however the write
-- and the rename came out. `clear_hold` either succeeds, and there is no flag file, or raises, and
-- the file is what it was.
pub set_hold-whole :
    (reason : Text) (origin : Option Text) (d : Disk)
    → ((((set_hold reason origin d).0 ≡ ok tt)
          × ((set_hold reason origin d).1.hold_file ≡ some (utf8 (hold_body reason origin none))))
        ⊎ (((set_hold reason origin d).0 ≡ err Failure.os_error)
            × ((set_hold reason origin d).1.hold_file ≡ d.hold_file)))
      × ((((clear_hold d).0 ≡ ok tt) × ((clear_hold d).1.hold_file ≡ none))
          ⊎ (((clear_hold d).0 ≡ err Failure.os_error)
              × ((clear_hold d).1.hold_file ≡ d.hold_file)))
unfolding set_hold clear_hold
set_hold-whole reason origin d = ground arith

-- A shutdown that raises a hold, a start that clears it, and any change of what the operating
-- system refuses.
pub data Event : Type 0 where
  shutdown : (now seconds : ℕ) (origin : Option Text) → Event
  start : Event
  weather : (stat read replace unlink : Bool) (write : Write) → Event

abbrev pub happens : (ℕ → Text) → Event → Disk → Disk
happens isoformat (shutdown now seconds origin) d = (set_auto_hold isoformat now seconds origin d).1
happens isoformat start d = (clear_auto_hold d).1
happens isoformat (weather stat read replace unlink write) d = record d {
  stat_refused = stat;
  read_refused = read;
  replace_refused = replace;
  unlink_refused = unlink;
  write = write;
}

abbrev pub history : (ℕ → Text) → List Event → Disk → Disk
history isoformat [] d = d
history isoformat (e ∷ es) d = history isoformat es (happens isoformat e d)

happens-stays :
    (isoformat : ℕ → Text) (e : Event) (c : Content) (d : Disk)
    → d.hold_file ≡ some c
    → contains auto_hold_marker (replaced c) ≡ false
    → (happens isoformat e d).hold_file ≡ some c
unfolding set_auto_hold clear_auto_hold
happens-stays isoformat (shutdown now seconds origin) c d e h = ground arith
happens-stays isoformat start c d e h = ground arith
happens-stays isoformat (weather stat read replace unlink write) c d e h = e

-- A person's hold is never touched by the automatic ones: a flag file without the marker of an
-- automatic hold stays as it is over any sequence of shutdowns and starts, whatever the operating
-- system refuses on the way.
pub history-stays :
    (isoformat : ℕ → Text) (events : List Event) (c : Content) (d : Disk)
    → d.hold_file ≡ some c
    → contains auto_hold_marker (replaced c) ≡ false
    → (history isoformat events d).hold_file ≡ some c
history-stays isoformat [] c d e h = e
history-stays isoformat (event ∷ events) c d e h =
    history-stays isoformat events c (happens isoformat event d)
      (happens-stays isoformat event c d e h) h

no_break : Text → Bool
no_break [] = true
no_break (c ∷ t) = not (is_break c) && no_break t

no_break_lem : (t : Text) → no_break t ≡ true → IsOneLine t
unfolding no_break
no_break_lem [] h = tt
no_break_lem (c ∷ t) h = (ground arith, no_break_lem t (ground arith))

auto-IsReason : IsReason auto_hold_marker (auto_hold_reason ∷ [])
unfolding no_break is_break strip lstrip rstrip is_space join_lines starts_with
auto-IsReason = record {
  one_line = (no_break_lem auto_hold_marker refl, (no_break_lem auto_hold_reason refl, tt));
  unstructured = (refl, (refl, tt));
  stripped = refl;
  nonempty = ground arith;
}

contains-joined :
    (lines : List Text)
    → contains auto_hold_marker
        (join_lines ((auto_hold_marker ++ (b'\n' ∷ auto_hold_reason)) ∷ lines) ++ codes "\n")
      ≡ true
unfolding contains join_lines starts_with
contains-joined [] = refl
contains-joined (line ∷ lines) = refl

body-contains :
    (isoformat : ℕ → Text) (now seconds : ℕ) (o : Option Text)
    → contains auto_hold_marker (auto_hold_body isoformat now seconds o) ≡ true
unfolding auto_hold_body hold_body strip lstrip rstrip is_space
body-contains isoformat now seconds o =
    contains-joined (fields o (some (isoformat (now + seconds * 1000000))))

-- No flag file, and the operating system refuses nothing.
pub record IsFree (d : Disk) : Type 0 where
  pub no_file : d.hold_file ≡ none
  pub stat_allowed : d.stat_refused ≡ false
  pub read_allowed : d.read_refused ≡ false
  pub unlink_allowed : d.unlink_refused ≡ false
  pub written_whole : d.write ≡ done

auto-origin :
    (isoformat : ℕ → Text) (now seconds : ℕ) (o : Option Text)
    → IsWordOrNone o
    → IsWord (isoformat (now + seconds * 1000000))
    → hold_origin (auto_hold_body isoformat now seconds o) ≡ o
unfolding auto_hold_body join_lines
auto-origin isoformat now seconds o ho he =
    (hold_body-round_trip auto_hold_marker (auto_hold_reason ∷ []) o
      (some (isoformat (now + seconds * 1000000))) auto-IsReason ho he).0

auto-deadline :
    (isoformat : ℕ → Text) (now seconds : ℕ) (o : Option Text)
    → IsWordOrNone o
    → IsWord (isoformat (now + seconds * 1000000))
    → hold_deadline (auto_hold_body isoformat now seconds o)
      ≡ some (isoformat (now + seconds * 1000000))
unfolding auto_hold_body join_lines
auto-deadline isoformat now seconds o ho he =
    (hold_body-round_trip auto_hold_marker (auto_hold_reason ∷ []) o
      (some (isoformat (now + seconds * 1000000))) auto-IsReason ho he).1

raised :
    (isoformat : ℕ → Text) (now seconds : ℕ) (o : Option Text) (d : Disk)
    → IsFree d
    → set_auto_hold isoformat now seconds o d
      ≡ (true, record d { hold_file = some (utf8 (auto_hold_body isoformat now seconds o)) })
unfolding set_auto_hold
raised isoformat now seconds o d free =
    rw (free.stat_allowed, free.no_file, free.written_whole) refl

-- Where there is no flag file and the operating system refuses nothing, a shutdown raises a hold
-- that names its origin and runs out the given number of seconds later, and the next start clears
-- it. The origin, if any, and the rendered deadline are single lines, not empty, with no blank at
-- their ends.
pub auto_hold-cycle :
    (isoformat : ℕ → Text) (now seconds : ℕ) (o : Option Text) (d : Disk)
    → IsFree d
    → IsWordOrNone o
    → IsWord (isoformat (now + seconds * 1000000))
    → let held = set_auto_hold isoformat now seconds o d in
      (held.0 ≡ true)
      × (is_held held.1 ≡ true)
      × (hold_origin (hold_text held.1) ≡ o)
      × (hold_deadline (hold_text held.1) ≡ some (isoformat (now + seconds * 1000000)))
      × ((clear_auto_hold held.1).0 ≡ true)
      × (is_held (clear_auto_hold held.1).1 ≡ false)
unfolding is_held hold_text clear_auto_hold
auto_hold-cycle isoformat now seconds o d free ho he =
    rw
      (
        raised isoformat now seconds o d free,
        free.stat_allowed,
        free.read_allowed,
        free.unlink_allowed,
        body-contains isoformat now seconds o,
      )
      (
        refl,
        refl,
        auto-origin isoformat now seconds o ho he,
        auto-deadline isoformat now seconds o ho he,
        refl,
        refl,
      )
