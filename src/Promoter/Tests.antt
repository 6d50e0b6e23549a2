-- ===== src/Promoter/Tests.antt =====
-- Ticks on a concrete server: node "a", whose peer is "b".
use ha_cluster_state_sync.Prelude.{
  ℕ, ℤ, pos, negsuc, ◌*◌, ◌≡◌, ◌≢◌, ◌⊎◌, inl, refl, true, false, Option, none, some, [], Text,
  codes, text_eq, starts_with, arith,
}
use ha_cluster_state_sync.Store.Mock.{Mock, mock, empty_mock, mock-laws}
use ha_cluster_state_sync.Lease.{lease_script, release_script, renew_only_script, force_script}
use ha_cluster_state_sync.Str.{strip, splitlines, lower}
use ha_cluster_state_sync.Promoter.World.{
  World, Env, Config, utf8, broken, File, Http, Inspect, Refusals, Role, master, Result, ok, err,
  Failure,
}
use ha_cluster_state_sync.Promoter.Keys.{leader_key, promoter_key, hold_key}
use ha_cluster_state_sync.Promoter.State.{role_text, read_state, decide, recently_touched}
use ha_cluster_state_sync.Promoter.Holds.{text_is_expired, hold_is_expired, read_cluster_hold}
use ha_cluster_state_sync.Promoter.Health.{
  probe_ha, grace_extended, write_reason, backup_is_serving, container_is_returning,
}
use ha_cluster_state_sync.Promoter.Tick.{
  go, key, plan, run, act, asks, beat, local_held, cluster_held, held_tick, settled, settle,
  force_tick, mark_force_used, handover_tick, release_tick, ordinary_tick, must_release,
}
use ha_cluster_state_sync.Promoter.Frames.{IsServed, SameKey}
use ha_cluster_state_sync.Promoter.Promotion.{plan-promotes, HasLease}
use ha_cluster_state_sync.Promoter.Ends.{IsTorn, ScriptRaises, run-returns}
use ha_cluster_state_sync.Promoter.Transition.{plan-Justified, Justified, run-recorded}
use ha_cluster_state_sync.Promoter.Maintenance.{LocalHold, hold-binds, BrokenHold-raises}
use ha_cluster_state_sync.Promoter.Unheld.{NoHold}
use ha_cluster_state_sync.Promoter.Demotion.{
  IsSilent, IsAsked, Demotes, silent_leader-Demotes, handover-Demotes,
}
use ha_cluster_state_sync.Promoter.Standby.{
  IsHeldDown, held_down-refuses, IsReady, standby-promotes,
}

abbrev pub second : ℕ
second = 1000000

-- A notify script that does what it should.
abbrev env : Env Mock
env = record {
  redis = mock;
  fromisoformat = λ _. none;
  isoformat = λ _. codes "2026-09-01T00:00:00+00:00";
  dumps = λ beat. codes "{}";
  runner = λ role w. (
    ok (pos 0),
    record w { state_file = some (record { content = utf8 (role_text role); mtime = w.now }) },
  );
}

abbrev config : Config
config = record {
  namespace = codes "home";
  node_id = codes "a";
  ttl = 30;
  base_grace = 120 * second;
  probe_grace = 600 * second;
  release_holddown = 900 * second;
  heartbeat_ttl_ms = 60000;
  has_hold_path = true;
  has_handover_path = true;
  has_inspector = true;
  has_reason_path = true;
  no_probe = false;
  reconcile_backup = true;
  bundle_version = codes "0.6.0";
}

config-IsServed : IsServed config
config-IsServed = record { lease = omega arith; heartbeat = omega arith }

abbrev all_allowed : Refusals
all_allowed = record {
  read_state = false;
  read_hold = false;
  read_handover = false;
  unlink_handover = false;
  touch_holddown = false;
  unlink_holddown = false;
  write_used = false;
  write_reason = false;
  write_state = false;
  make_state_dir = false;
}

abbrev state_since : Text → ℕ → Option File
state_since text since = some (record { content = utf8 text; mtime = since })

-- Home Assistant is stopped here, and nobody holds the lease.
abbrev pub standby : World Mock
standby = record {
  server = empty_mock;
  links = [];
  now = 100000 * second;
  state_file = state_since (codes "BACKUP\n") (50000 * second);
  holddown = none;
  hold_file = none;
  force_file = false;
  force_used = none;
  handover_file = none;
  reason_file = none;
  http = Http.silent;
  inspect = Inspect.no_answer;
  refusals = all_allowed;
}

-- The leader, whose container restarts again and again.
abbrev pub crash_loop : World Mock
crash_loop = record standby {
  server = mock.set_px (leader_key (codes "home")) (codes "a") 30000 empty_mock;
  state_file = state_since (codes "MASTER\n") (50000 * second);
  inspect =
      Inspect.answers
        (record { restarting = true; running = false; exit_code = none; started_at = 0 });
}

tick : World Mock → Result ℤ × World Mock
unfolding run plan act asks beat local_held cluster_held held_tick settled settle force_tick
    mark_force_used handover_tick release_tick ordinary_tick must_release hold_is_expired
    read_cluster_hold grace_extended write_reason probe_ha backup_is_serving container_is_returning
    read_state decide recently_touched text_is_expired starts_with lower lease_script release_script
    renew_only_script force_script text_eq strip splitlines leader_key promoter_key hold_key
tick w = run env config w

-- The standby takes the lease and is MASTER in the end; the next tick only renews.
standby_takes :
    ((tick standby).0 ≡ ok (pos 0))
    × (mock.get (leader_key (codes "home")) (tick standby).1.server ≡ some (codes "a"))
    × (read_state (tick standby).1 ≡ codes "MASTER")
unfolding tick
standby_takes = (refl, refl, refl)

-- A notify script that SIGKILL ends: its negative code is the tick's.
abbrev killed : Env Mock
killed = record env { runner = λ role w. (ok (negsuc 8), w) }

killed_code : (run killed config standby).0 ≡ ok (negsuc 8)
unfolding tick
killed_code = refl

standby-free : IsReady env config mock-laws config-IsServed standby
unfolding tick
standby-free = record { follower = refl; not_recent = refl; free = inl refl }

standby-NoHold : NoHold env config standby
unfolding tick
standby-NoHold = record { no_file = refl; no_key = refl; no_force = refl }

standby-promotes_example :
    ((plan env config standby).0 ≡ ok (go master))
    × HasLease env config mock-laws config-IsServed (plan env config standby).1
standby-promotes_example =
    standby-promotes env config mock-laws config-IsServed standby standby-NoHold standby-free refl

plan-promotes_example :
    (standby.force_file ≡ true)
    ⊎ HasLease env config mock-laws config-IsServed (plan env config standby).1
plan-promotes_example =
    plan-promotes env config mock-laws config-IsServed standby
      (standby-promotes env config mock-laws config-IsServed standby standby-NoHold standby-free
        refl).0

plan-Justified_example :
    Justified env config (read_state standby) master (plan env config standby).1
plan-Justified_example =
    plan-Justified env config standby master
      (standby-promotes env config mock-laws config-IsServed standby standby-NoHold standby-free
        refl).0

run-recorded_example : read_state (run env config standby).1 ≡ role_text master
unfolding tick
run-recorded_example =
    run-recorded env config standby master
      (standby-promotes env config mock-laws config-IsServed standby standby-NoHold standby-free
        refl).0
      refl

-- The lease is free and the node would promote, but for the hold.
abbrev under_hold : World Mock
under_hold = record standby { hold_file = some (utf8 (codes "new disk\norigin: b\n")) }

under_hold-LocalHold : LocalHold env config under_hold
unfolding tick
under_hold-LocalHold = record {
  watched = refl;
  text = codes "new disk\norigin: b\n";
  file = refl;
  in_force = refl;
}

hold-binds_example :
    ((role : Role) → (plan env config under_hold).0 ≢ ok (go role))
    × ((mock.get (key env config) under_hold.server ≡ some (codes "a"))
        ⊎ SameKey mock (key env config) under_hold.server (plan env config under_hold).1.server)
hold-binds_example =
    hold-binds env config mock-laws config-IsServed under_hold under_hold-LocalHold refl

-- The leader, with a hold whose bytes are not UTF-8.
abbrev torn_hold : World Mock
torn_hold = record crash_loop { hold_file = some (broken (codes "?")) }

BrokenHold-raises_example :
    ((run env config torn_hold).0 ≡ err Failure.value_error)
    × SameKey mock (key env config) torn_hold.server (run env config torn_hold).1.server
BrokenHold-raises_example =
    BrokenHold-raises env config mock-laws config-IsServed torn_hold
      (record { watched = refl; text = codes "?"; readable = refl; file = refl })

run-returns_example :
    ((code : ℤ) × ((run env config torn_hold).0 ≡ ok code))
    ⊎ (((run env config torn_hold).0 ≡ err Failure.value_error)
        × (IsTorn torn_hold.hold_file
            ⊎ IsTorn torn_hold.handover_file
            ⊎ ScriptRaises env config torn_hold))
run-returns_example = run-returns env config mock-laws config-IsServed torn_hold

crash_loop-IsSilent : IsSilent env config crash_loop
unfolding tick
crash_loop-IsSilent = record {
  leader = refl;
  no_request = refl;
  no_override = refl;
  base_over = refl;
  ceiling_over = refl;
  probing = refl;
  no_answer = refl;
}

crash_loop-NoHold : NoHold env config crash_loop
unfolding tick
crash_loop-NoHold = record { no_file = refl; no_key = refl; no_force = refl }

silent_leader-Demotes_example : Demotes env config mock-laws crash_loop
silent_leader-Demotes_example =
    silent_leader-Demotes env config mock-laws crash_loop config-IsServed crash_loop-NoHold
      crash_loop-IsSilent refl

-- A healthy leader that is asked to hand over.
abbrev asked : World Mock
asked = record crash_loop {
  http = Http.answered;
  handover_file = some (utf8 (codes "disk swap\n"));
}

asked-IsAsked : IsAsked env config mock-laws asked
unfolding tick
asked-IsAsked = record {
  leader = refl;
  watched = refl;
  reason = codes "disk swap\n";
  request = refl;
  no_override = refl;
}

asked-NoHold : NoHold env config asked
unfolding tick
asked-NoHold = record { no_file = refl; no_key = refl; no_force = refl }

handover-Demotes_example :
    Demotes env config mock-laws asked
    × ((asked.refusals.unlink_handover ≡ true) ⊎ ((plan env config asked).1.handover_file ≡ none))
handover-Demotes_example =
    handover-Demotes env config mock-laws asked config-IsServed asked-NoHold asked-IsAsked refl

-- The standby a minute after it gave the lease up.
abbrev released : World Mock
released = record standby { holddown = some (99940 * second) }

released-IsHeldDown : IsHeldDown env config released
unfolding tick
released-IsHeldDown = record { follower = refl; no_override = refl; recent = refl }

held_down-refuses_example : (plan env config released).0 ≢ ok (go master)
held_down-refuses_example =
    held_down-refuses env config mock-laws config-IsServed released released-IsHeldDown
