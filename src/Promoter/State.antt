-- ===== src/Promoter/State.antt =====
-- cluster_promoter.py: `read_state`, `decide`, `_recently_touched`.
use ha_cluster_state_sync.Prelude.{
  ℕ, ◌+◌, Bool, true, false, Option, none, some, [], Text, codes, text_eq, ltb, if◌then◌else◌,
}
use ha_cluster_state_sync.Str.{strip}
use ha_cluster_state_sync.Promoter.World.{World, Content, utf8, broken, File, Role, master, backup}

-- What the state file says of a role.
abbrev pub role_text : Role → Text
role_text master = codes "MASTER"
role_text backup = codes "BACKUP"

-- `read_text(errors="replace")`
abbrev pub replaced : Content → Text
replaced (utf8 t) = t
replaced (broken t) = t

abbrev pub state_text : Bool → Option File → Text
state_text refused none = []
state_text true (some f) = []
state_text false (some f) = strip (replaced f.content)

unfoldable pub decide : Bool → Text → Option Role
decide holds_lease previous =
    let current = if holds_lease then master else backup in
    if text_eq (role_text current) previous then none else some current

abbrev pub touched_at : Option File → Option ℕ
touched_at none = none
touched_at (some f) = some f.mtime

module _ {Server : Type 0} where
  unfoldable pub read_state : World Server → Text
  read_state w = state_text w.refusals.read_state w.state_file

  -- The age is `now - mtime`, which may be negative; a file that is not there is not recent.
  unfoldable pub recently_touched : Option ℕ → ℕ → World Server → Bool
  recently_touched none window w = false
  recently_touched (some mtime) window w = ltb w.now (mtime + window)
