-- ===== src/Promoter/Commands.antt =====
-- cluster_promoter.py: the operator's commands, `set_cluster_hold`, `clear_cluster_hold`,
-- `show_cluster_hold`, `adopt`. Each ends in an exit code; what it prints is left out, but for the
-- output of `show_cluster_hold`, which a script reads.
use ha_cluster_state_sync.Prelude.{
  ℕ, ◌-◌, ◌*◌, Bool, false, ◌||◌, Option, none, some, List, [], ◌∷◌, ◌++◌, Text, codes, text_eq,
  starts_with, if◌then◌else◌,
}
use ha_cluster_state_sync.Str.{strip, lower, splitlines}
use ha_cluster_state_sync.Store.{Redis}
use ha_cluster_state_sync.Promoter.World.{
  World, utf8, File, Role, master, backup, Failure, Result, ok, err,
}
use ha_cluster_state_sync.Promoter.Monad.{M, pure, modify, call, or_else, ◌>>=◌, ◌>>◌}
use ha_cluster_state_sync.Promoter.Keys.{leader_key, hold_key}
use ha_cluster_state_sync.Promoter.State.{role_text}
use ha_cluster_state_sync.Promoter.Holds.{hold_origin}

-- _ADOPT_BACKDATE_SECONDS, in microseconds.
abbrev pub adopt_backdate : ℕ
adopt_backdate = 86400 * 1000000

abbrev pub with_reason : Text → Text → Text
with_reason [] node_id = codes "origin: " ++ (node_id ++ codes "\n")
with_reason (c ∷ reason) node_id = (c ∷ reason) ++ (codes "\norigin: " ++ (node_id ++ codes "\n"))

unfoldable pub cluster_hold_body : Text → Text → Text
cluster_hold_body reason node_id = with_reason (strip reason) node_id

-- The human part of a hold on one line: each line stripped, and joined by blanks.
abbrev pub joined : Text → List Text → Text
joined line [] = line
joined line (next ∷ lines) = line ++ (b' ' ∷ joined next lines)

abbrev pub join_blank : List Text → Text
join_blank [] = []
join_blank (line ∷ lines) = joined line lines

unfoldable pub shown_lines : List Text → List Text
shown_lines [] = []
shown_lines (line ∷ lines) =
    let rest = shown_lines lines in
    if starts_with (codes "origin:") (lower (strip line))
      || starts_with (codes "expires:") (lower (strip line))
    then rest
    else strip line ∷ rest

abbrev pub or_text : Text → Text → Text
or_text [] t = t
or_text (c ∷ s) t = c ∷ s

abbrev pub origin_text : Option Text → Text
origin_text none = codes "an unnamed node"
origin_text (some origin) = origin

unfoldable pub shown : Text → Text
unfolding shown_lines
shown text =
    codes "set by "
    ++ (origin_text (hold_origin text)
        ++ (codes ": "
            ++ or_text (strip (join_blank (shown_lines (splitlines text))))
                (codes "no reason given")))

abbrev pub printed : Option Text → Option Text
printed none = none
printed (some []) = none
printed (some (c ∷ text)) = some (shown (c ∷ text))

module _ {Server : Type 0} (redis : Redis Server) (namespace : Text) where
  unfoldable pub set_cluster_hold : Text → Text → M Server ℕ
  unfolding cluster_hold_body
  set_cluster_hold node_id reason =
      or_else
        ((call λ s. (tt, redis.set (hold_key namespace) (cluster_hold_body reason node_id) s))
          >> pure 0)
        1

  unfoldable pub clear_cluster_hold : M Server ℕ
  clear_cluster_hold = or_else ((call λ s. (tt, redis.del (hold_key namespace) s)) >> pure 0) 1

  -- The exit code and the line that is printed, if any.
  unfoldable pub show_cluster_hold : M Server (ℕ × Option Text)
  unfolding shown
  show_cluster_hold =
      or_else ((call λ s. (redis.get (hold_key namespace) s, s)) >>= λ text. pure (0, printed text))
        (0, none)

  abbrev pub is_own : Text → Option Text → Bool
  is_own node_id none = false
  is_own node_id (some holder) = text_eq holder node_id

  -- `write_text` of a temporary file and `replace`: the state file is new, or an `OSError` is
  -- raised and it is what it was.
  abbrev pub write_state : Role → M Server (Unit {0})
  write_state role w =
      if w.refusals.make_state_dir || w.refusals.write_state then (err Failure.os_error, w) else (
        ok tt,
        record w {
          state_file =
              some (record { content = utf8 (role_text role ++ codes "\n"); mtime = w.now });
        },
      )

  abbrev backdated : ℕ → Option File → Option File
  backdated mtime none = none
  backdated mtime (some f) = some (record f { mtime = mtime })

  -- `os.utime`, which the operating system may refuse.
  abbrev pub backdate : Bool → M Server (Unit {0})
  backdate utime_refused w =
      if utime_refused
      then (err Failure.os_error, w)
      else (ok tt, record w { state_file = backdated (w.now - adopt_backdate) w.state_file })

  abbrev pub clear_holddown : M Server (Unit {0})
  clear_holddown =
      modify λ w. if w.refusals.unlink_holddown then w else record w { holddown = none }

  abbrev pub record_role : Text → Bool → Option Text → M Server ℕ
  record_role node_id utime_refused holder = do
    write_state (if is_own node_id holder then master else backup)
    backdate utime_refused
    clear_holddown
    pure 0

  -- `except (ValkeyError, OSError)`
  abbrev pub exit_code : Result ℕ × World Server → Result ℕ × World Server
  exit_code (ok rc, w) = (ok rc, w)
  exit_code (err Failure.valkey_error, w) = (ok 1, w)
  exit_code (err Failure.os_error, w) = (ok 1, w)
  exit_code (err Failure.value_error, w) = (err Failure.value_error, w)

  unfoldable pub adopt : Text → Bool → M Server ℕ
  adopt node_id utime_refused w = exit_code (
      ((call λ s. (redis.get (leader_key namespace) s, s)) >>= record_role node_id utime_refused) w)
