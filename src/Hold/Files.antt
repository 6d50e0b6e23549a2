-- ===== src/Hold/Files.antt =====
-- hold.py: the flag file, `is_held`, `read_hold`, `hold_reason`, `hold_text`, `set_hold`,
-- `clear_hold`, `auto_hold_body`, `set_auto_hold`, `clear_auto_hold`.
use ha_cluster_state_sync.Prelude.{
  ℕ, ◌+◌, ◌*◌, Bool, true, false, not, Option, none, some, [], ◌∷◌, ◌++◌, Text, codes, starts_with,
  if◌then◌else◌,
}
use ha_cluster_state_sync.Promoter.World.{Content, utf8, broken, Result, ok, err, Failure}
use ha_cluster_state_sync.Hold.Format.{hold_body, reason_of}

-- How a write of a file comes out: done, refused at the opening, or cut off with an `OSError` after
-- the file was emptied and a part of the text written.
pub data Write : Type 0 where
  done : Write
  refused : Write
  cut_off : (part : Content) → Write

-- The flag file, the temporary file beside it, and what the operating system refuses. If the flag
-- is there it is a regular file.
pub record Disk : Type 0 where
  pub hold_file : Option Content
  pub tmp_file : Option Content
  pub stat_refused : Bool
  pub read_refused : Bool
  pub write : Write
  pub replace_refused : Bool
  pub unlink_refused : Bool

abbrev pub is_there : Option Content → Bool
is_there none = false
is_there (some c) = true

unfoldable pub is_held : Disk → Bool
is_held d = if d.stat_refused then false else is_there d.hold_file

-- `read_text(errors="replace")`
abbrev pub replaced : Content → Text
replaced (utf8 t) = t
replaced (broken t) = t

abbrev text_in : Option Content → Text
text_in none = []
text_in (some c) = replaced c

-- An absent file raises an `OSError` too.
unfoldable pub hold_text : Disk → Text
hold_text d = if d.read_refused then [] else text_in d.hold_file

-- The reason of an empty text is empty.
abbrev reason_in : (Text → Text) → Option Content → Text
reason_in reason none = []
reason_in reason (some c) = reason (replaced c)

unfoldable pub hold_reason : Disk → Text
unfolding reason_of
hold_reason d = if d.read_refused then [] else reason_in reason_of d.hold_file

unfoldable pub read_hold : Disk → Bool × Text
unfolding is_held hold_reason
read_hold d = (is_held d, hold_reason d)

-- `write_text`: the content of the file after it, and whether it raised no `OSError`.
abbrev pub written : Write → Text → Option Content → Option Content × Bool
written done t old = (some (utf8 t), true)
written refused t old = (old, false)
written (cut_off part) t old = (some part, false)

abbrev pub renamed : Bool → Option Content × Bool → Disk → Result (Unit {0}) × Disk
renamed replace_refused (tmp, false) d = (err Failure.os_error, record d { tmp_file = tmp })
renamed true (tmp, true) d = (err Failure.os_error, record d { tmp_file = tmp })
renamed false (tmp, true) d = (ok tt, record d { hold_file = tmp; tmp_file = none })

unfoldable pub set_hold : Text → Option Text → Disk → Result (Unit {0}) × Disk
unfolding hold_body
set_hold reason origin d =
    renamed d.replace_refused (written d.write (hold_body reason origin none) d.tmp_file) d

abbrev unlinked : Bool → Option Content → Disk → Result (Unit {0}) × Disk
unlinked unlink_refused none d = (ok tt, d)
unlinked true (some c) d = (err Failure.os_error, d)
unlinked false (some c) d = (ok tt, record d { hold_file = none })

unfoldable pub clear_hold : Disk → Result (Unit {0}) × Disk
clear_hold d = unlinked d.unlink_refused d.hold_file d

abbrev pub auto_hold_marker : Text
auto_hold_marker = codes "cluster_state_sync:auto-hold"

abbrev pub auto_hold_reason : Text
auto_hold_reason = codes "Home Assistant is restarting; failover is held until it returns."

-- Seconds, and instants in microseconds; `isoformat` is the standard library's.
unfoldable pub auto_hold_body : (ℕ → Text) → ℕ → ℕ → Option Text → Text
unfolding hold_body
auto_hold_body isoformat now seconds origin =
    hold_body (auto_hold_marker ++ (b'\n' ∷ auto_hold_reason)) origin
      (some (isoformat (now + seconds * 1000000)))

unfoldable pub set_auto_hold : (ℕ → Text) → ℕ → ℕ → Option Text → Disk → Bool × Disk
unfolding auto_hold_body
set_auto_hold isoformat now seconds origin d =
    if d.stat_refused
    then (false, d)
    else if is_there d.hold_file
    then (false, d)
    else let (file, fine) =
        written d.write (auto_hold_body isoformat now seconds origin) d.hold_file in
      (fine, record d { hold_file = file })

-- `p in t`
unfoldable pub contains : Text → Text → Bool
unfolding starts_with
contains p [] = starts_with p []
contains p (c ∷ t) = let later = contains p t in if starts_with p (c ∷ t) then true else later

abbrev dropped : Option Content → Disk → Bool × Disk
dropped none d = (false, d)
dropped (some c) d =
    if d.read_refused
    then (false, d)
    else if not (contains auto_hold_marker (replaced c))
    then (false, d)
    else if d.unlink_refused
    then (false, d)
    else (true, record d { hold_file = none })

unfoldable pub clear_auto_hold : Disk → Bool × Disk
unfolding contains
clear_auto_hold d = if d.stat_refused then (false, d) else dropped d.hold_file d
