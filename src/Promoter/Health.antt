-- ===== src/Promoter/Health.antt =====
-- cluster_promoter.py: is Home Assistant there? `_probe_ha`, `container_is_returning`,
-- `_grace_extended`, `_write_reason`, `_backup_is_serving`.
use ha_cluster_state_sync.Prelude.{
  ℕ, ◌-◌, ◌*◌, Bool, true, false, not, ◌&&◌, ◌||◌, Option, none, some, Text, codes, text_eq, ltb,
  leb, ◌==◌, if◌then◌else◌,
}
use ha_cluster_state_sync.Promoter.World.{
  World, Http, answered, http_error, silent, ContainerState, Inspect, raises, no_answer, answers,
  Reason, is_restarting, asked_to_restart, still_booting, Config, ok,
}
use ha_cluster_state_sync.Promoter.Monad.{M, pure, modify, ◌>>◌}
use ha_cluster_state_sync.Promoter.State.{recently_touched, touched_at}

-- RETURNING_STARTED_WITHIN_SECONDS and BACKUP_SERVING_GRACE_SECONDS, in microseconds.
abbrev pub returning_started_within : ℕ
returning_started_within = 120 * 1000000

abbrev pub backup_serving_grace : ℕ
backup_serving_grace = 180 * 1000000

abbrev pub ha_restart_exit_code : ℕ
ha_restart_exit_code = 100

-- Any reply counts, an error reply too.
unfoldable pub probe_ha : Http → Bool
probe_ha answered = true
probe_ha http_error = true
probe_ha silent = false

abbrev exited_with : ℕ → Option ℕ → Bool
exited_with code none = false
exited_with code (some n) = n == code

-- `none` is the source's `(False, "")`.
unfoldable pub container_is_returning : Option ContainerState → ℕ → ℕ → Option Reason
container_is_returning none now within = none
container_is_returning (some state) now within =
    if state.restarting
    then some is_restarting
    else if exited_with ha_restart_exit_code state.exit_code && not state.running
    then some asked_to_restart
    else if ltb 0 state.started_at
        && leb state.started_at now
        && ltb (now - state.started_at) within
    then some (still_booting (now - state.started_at))
    else none

abbrev pub is_running : Inspect → Bool
is_running raises = false
is_running no_answer = false
is_running (answers state) = state.running

module _ {Server : Type 0} where
  -- Best effort: a write that the operating system refuses changes nothing.
  unfoldable pub write_reason : Config → Option Reason → M Server (Unit {0})
  write_reason c reason = modify λ w.
      if c.has_reason_path && not w.refusals.write_reason
      then record w { reason_file = reason }
      else w

  abbrev granted : Config → Option Reason → M Server Bool
  granted c none = write_reason c none >> pure false
  granted c (some reason) = write_reason c (some reason) >> pure true

  abbrev extended_by : Config → Inspect → M Server Bool
  extended_by c raises w = pure false w
  extended_by c no_answer w = granted c none w
  extended_by c (answers state) w =
      granted c (container_is_returning (some state) w.now returning_started_within) w

  -- Past the ceiling no signal extends the grace.
  unfoldable pub grace_extended : Config → M Server Bool
  unfolding write_reason
  grace_extended c w =
      if not c.has_inspector
      then (ok false, w)
      else if not (recently_touched (touched_at w.state_file) c.probe_grace w)
      then granted c none w
      else extended_by c w.inspect w

  unfoldable pub backup_is_serving : Config → Text → Bool → World Server → Bool
  backup_is_serving c previous holds_lease w =
      if not c.reconcile_backup || not (text_eq previous (codes "BACKUP")) || holds_lease
      then false
      else if not c.has_inspector
      then false
      else if recently_touched (touched_at w.state_file) backup_serving_grace w
      then false
      else is_running w.inspect
