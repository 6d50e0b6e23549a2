-- ===== src/Promoter/Tick.antt =====
-- cluster_promoter.py: `_beat`, `_mark_force_used` and `run`, one tick. `run` is cut at its
-- branches; `plan` is all of it up to the notify script, `act` the rest.
use ha_cluster_state_sync.Prelude.{
  ℕ, ℤ, pos, negsuc, Bool, true, false, not, ◌&&◌, ◌||◌, Option, none, some, Text, codes, text_eq,
  ◌++◌, ◌==◌, if◌then◌else◌,
}
use ha_cluster_state_sync.Lease.{
  truthy, lease_ttl_ms, lease_script, force_script, release_script, renew_only_script,
}
use ha_cluster_state_sync.Promoter.World.{
  World, Content, broken, Role, backup, Env, Config, Failure, Result, ok, err,
}
use ha_cluster_state_sync.Promoter.Monad.{
  M, pure, raise, gets, modify, after, call, or_else, ◌>>=◌, ◌>>◌,
}
use ha_cluster_state_sync.Promoter.Keys.{leader_key, promoter_key}
use ha_cluster_state_sync.Promoter.State.{
  role_text, decide, read_state, recently_touched, touched_at,
}
use ha_cluster_state_sync.Promoter.Holds.{hold_is_expired, read_cluster_hold, text_is_expired}
use ha_cluster_state_sync.Promoter.Health.{probe_ha, grace_extended, backup_is_serving}

-- What a tick comes to before any notify script has run.
pub data Plan : Type 0 where
  stay : Plan
  go : Role → Plan

module _ {Server : Type 0} (env : Env Server) (c : Config) where
  open env use {redis}

  abbrev pub key : Text
  key = leader_key c.namespace

  abbrev pub measured : M Server (Option (ℕ × ℕ × ℕ))
  measured w =
      or_else ((call (λ s. (redis.time s, s))) >>= λ t. pure (some (w.now, t.0, t.1))) none w

  abbrev pub payload : Option (ℕ × ℕ × ℕ) → ℕ → Text
  payload offset at =
      env.dumps (record {
        node_id = c.node_id;
        offset = offset;
        bundle_version = c.bundle_version;
        at = at;
      })

  abbrev pub write_beat : Text → Server → Unit {0} × Server
  write_beat text s =
      (tt, redis.set_px (promoter_key c.namespace c.node_id) text c.heartbeat_ttl_ms s)

  abbrev pub send_beat : Option (ℕ × ℕ × ℕ) → M Server (Unit {0})
  send_beat offset w = or_else (call (write_beat (payload offset w.now))) tt w

  -- Two calls, each best effort; the heartbeat is written also where the clock was not read.
  unfoldable pub beat : M Server (Unit {0})
  beat = measured >>= send_beat

  -- Written by the first tick under the override only.
  unfoldable pub mark_force_used : M Server (Unit {0})
  mark_force_used w = elim w.force_used [
    | some _ ↦ (ok tt, w)
    | none ↦ if w.refusals.write_used then (err Failure.os_error, w) else (
      ok tt,
      record w {
        force_used = some (c.node_id ++ (codes " " ++ (env.isoformat w.now ++ codes "\n")));
      },
    )
  ]

  abbrev pub present : {A : Type 0} → Option A → Bool
  present none = false
  present (some _) = true

  -- A local hold that is there and has not expired.
  unfoldable pub local_held : M Server Bool
  local_held w =
      if c.has_hold_path && present w.hold_file
      then (hold_is_expired env >>= λ expired. pure (not expired)) w
      else (ok false, w)

  abbrev pub holds_cluster : Option Text → World Server → Bool
  holds_cluster none w = false
  holds_cluster (some text) w = not (text_is_expired env.fromisoformat w.now text)

  unfoldable pub cluster_held : M Server Bool
  cluster_held = do text ← read_cluster_hold env c; gets (holds_cluster text)

  -- Under a hold: renew, and do nothing else, whatever the lease comes to.
  unfoldable pub held_tick : M Server Plan
  held_tick =
      call (renew_only_script redis key c.node_id (lease_ttl_ms c.ttl)) >>= λ _. pure Plan.stay

  -- The override: the claim is best effort, and the answer is yes in any case.
  unfoldable pub force_tick : M Server Bool
  force_tick = do
    _claimed ← or_else (call (force_script redis key c.node_id (lease_ttl_ms c.ttl))) 0
    mark_force_used
    pure true

  -- `holddown.touch()`, and `unlink` of the request, each with its `OSError` swallowed.
  abbrev pub start_holddown : M Server (Unit {0})
  start_holddown =
      modify λ w. if w.refusals.touch_holddown then w else record w { holddown = some w.now }

  abbrev pub consume_request : M Server (Unit {0})
  consume_request =
      modify λ w. if w.refusals.unlink_handover then w else record w { handover_file = none }

  -- The request's reason is only printed, but reading it raises where it is not UTF-8.
  abbrev pub read_reason : Bool → Option Content → M Server (Unit {0})
  read_reason false (some (broken t)) = raise Failure.value_error
  read_reason refused content = pure tt

  unfoldable pub handover_tick : M Server Bool
  handover_tick = do
    w ← gets (λ w. w)
    read_reason w.refusals.read_handover w.handover_file
    _released ← call (release_script redis key c.node_id)
    start_holddown
    consume_request
    pure false

  -- The leader that has gone silent.
  unfoldable pub release_tick : M Server Bool
  release_tick = do
    _released ← call (release_script redis key c.node_id)
    start_holddown
    pure false

  -- Take or renew, with a spent marker of the hold-down removed first.
  abbrev pub drop_spent_holddown : Bool → M Server (Unit {0})
  drop_spent_holddown is_master = modify λ w.
      if not is_master && not w.refusals.unlink_holddown then record w { holddown = none } else w

  unfoldable pub ordinary_tick : Bool → M Server Bool
  ordinary_tick is_master = do
    drop_spent_holddown is_master
    reply ← call (lease_script redis key c.node_id (lease_ttl_ms c.ttl))
    pure (truthy reply)

  -- The test of the branch that releases, with the effects of its last part.
  unfoldable pub must_release : Bool → M Server Bool
  must_release is_master w =
      if not is_master || recently_touched (touched_at w.state_file) c.base_grace w
      then (ok false, w)
      else if c.no_probe || probe_ha w.http
      then (ok false, w)
      else (grace_extended c >>= λ extended. pure (not extended)) w

  abbrev pub after_probe : Bool → Bool → M Server Bool
  after_probe is_master true w = release_tick w
  after_probe is_master false w =
      if not is_master && recently_touched w.holddown c.release_holddown w
      then (ok false, w)
      else ordinary_tick is_master w

  -- The chain of branches that settles whether this node holds the lease.
  unfoldable pub settle : Bool → M Server Bool
  settle is_master w =
      if w.force_file
      then force_tick w
      else if is_master && c.has_handover_path && present w.handover_file
      then handover_tick w
      else (must_release is_master >>= after_probe is_master) w

  abbrev pub turn : Option Role → Text → Bool → World Server → Plan
  turn (some role) previous holds w = Plan.go role
  turn none previous holds w =
      if backup_is_serving c previous holds w then Plan.go backup else Plan.stay

  -- Everything up to the notify script.
  unfoldable pub settled : Text → M Server Plan
  settled previous = do
    holds ← settle (text_eq previous (codes "MASTER"))
    gets (turn (decide holds previous) previous holds)

  abbrev pub by_hold : Text → Bool → M Server Plan
  by_hold previous held w = if held && not w.force_file then held_tick w else settled previous w

  -- The heartbeat comes first, since every branch below can return; then the two halves of the hold.
  unfoldable pub asks : M Server Bool
  asks = do beat; local ← local_held; cluster ← cluster_held; pure (local || cluster)

  unfoldable pub plan : M Server Plan
  plan w = after (by_hold (read_state w)) (asks w)

  abbrev pub is_zero : ℤ → Bool
  is_zero (pos n) = n == 0
  is_zero (negsuc n) = false

  -- The state file must say what the script was run for, whatever the script returned.
  abbrev pub verify : Role → ℤ → M Server ℤ
  verify role rc w =
      if not (is_zero rc)
      then (ok rc, w)
      else if text_eq (read_state w) (role_text role)
      then (ok (pos 0), w)
      else (ok (pos 1), w)

  unfoldable pub act : Plan → M Server ℤ
  act Plan.stay w = (ok (pos 0), w)
  act (Plan.go role) w =
      if w.refusals.make_state_dir
      then (err Failure.os_error, w)
      else after (verify role) (env.runner role w)

  -- `except (ValkeyError, OSError)`
  abbrev pub reported : Result ℤ × World Server → Result ℤ × World Server
  reported (ok rc, w) = (ok rc, w)
  reported (err Failure.valkey_error, w) = (ok (pos 1), w)
  reported (err Failure.os_error, w) = (ok (pos 1), w)
  reported (err Failure.value_error, w) = (err Failure.value_error, w)

  unfoldable pub run : M Server ℤ
  run w = reported ((plan >>= act) w)
