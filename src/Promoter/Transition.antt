-- ===== src/Promoter/Transition.antt =====
-- cluster_promoter.py: when `run` acts, what it records, and how it ends.
use ha_cluster_state_sync.Prelude.{
  ◌≡◌, ◌≢◌, pos, ◌⊎◌, inl, inr, Bool, true, false, some, Text, codes, text_eq, text_eq_iff, arith,
  Option-cases,
}
use ha_cluster_state_sync.Promoter.World.{World, Env, Config, Result, ok, err, Role, backup}
use ha_cluster_state_sync.Promoter.Monad.{after}
use ha_cluster_state_sync.Promoter.State.{decide, read_state, role_text}
use ha_cluster_state_sync.Promoter.Tick.{
  Plan, stay, go, asks, plan, act, run, reported, by_hold, settled, settle, turn, held_tick,
}
use ha_cluster_state_sync.Promoter.Health.{backup_is_serving, is_running}
use ha_cluster_state_sync.Promoter.Promotion.{plan-cases}

module _ {Server : Type 0} (env : Env Server) (c : Config) where
  decide_changes :
      (holds : Bool) (previous : Text) (role : Role)
      → decide holds previous ≡ some role
      → role_text role ≢ previous
  unfolding decide
  decide_changes true previous role h = ground (arith, text_eq_iff (codes "MASTER") previous)
  decide_changes false previous role h = ground (arith, text_eq_iff (codes "BACKUP") previous)

  serving_needs :
      (previous : Text) (holds : Bool) (w : World Server)
      → backup_is_serving c previous holds w ≡ true
      → (c.reconcile_backup ≡ true) × (is_running w.inspect ≡ true)
  unfolding backup_is_serving
  serving_needs previous holds w h = ground arith

  -- Either a change of role, or the demotion that never ran: on the cold topology only, with Home
  -- Assistant's container running.
  abbrev pub Justified : Text → Role → World Server → Type 0
  Justified previous role w =
      (role_text role ≢ previous)
      ⊎ ((role ≡ backup) × (c.reconcile_backup ≡ true) × (is_running w.inspect ≡ true))

  turn-Justified :
      (previous : Text) (holds : Bool) (w : World Server) (role : Role)
      → turn env c (decide holds previous) previous holds w ≡ go role
      → Justified previous role w
  turn-Justified previous holds w role h = elim (Option-cases (decide holds previous)) [
    | inl unchanged ↦ ground (arith, serving_needs previous holds w)
    | inr (r, changed) ↦ inl (ground (arith, decide_changes holds previous r))
  ]

  settled-Justified :
      (previous : Text) (w : World Server) (role : Role)
      → (settled env c previous w).0 ≡ ok (go role)
      → Justified previous role (settled env c previous w).1
  unfolding settled
  settled-Justified previous w role h = go_on (settle env c (text_eq previous (codes "MASTER")) w) h
    where
      chosen : Bool → World Server → Plan
      chosen holds v = turn env c (decide holds previous) previous holds v

      go_on :
          (r : Result Bool × World Server)
          → (after (λ holds v. (ok (chosen holds v), v)) r).0 ≡ ok (go role)
          → Justified previous role (after (λ holds v. (ok (chosen holds v), v)) r).1
      go_on (ok holds, v) e = turn-Justified previous holds v role (cc)
      go_on (err failure, v) e = cc

  by_hold-Justified :
      (previous : Text) (held : Bool) (w : World Server) (role : Role)
      → (by_hold env c previous held w).0 ≡ ok (go role)
      → Justified previous role (by_hold env c previous held w).1
  unfolding held_tick
  by_hold-Justified previous held w role h = ground (arith, settled-Justified previous w role)

  -- A tick that goes on to a notify script has seen a change of role against the state file, or a
  -- node that reads BACKUP and still runs Home Assistant on the cold topology.
  pub plan-Justified :
      (w : World Server) (role : Role)
      → (plan env c w).0 ≡ ok (go role)
      → Justified (read_state w) role (plan env c w).1
  plan-Justified w role h = elim (plan-cases env c w) [
    | inl (e, _, raised) ↦ absurd (ground arith)
    | inr (held, _, goes) ↦
        rw goes (by_hold-Justified (read_state w) held (asks env c w).1 role (rw goes at h))
  ]

  act-recorded :
      (role : Role) (v : World Server)
      → (reported env c (act env c (go role) v)).0 ≡ ok (pos 0)
      → read_state (reported env c (act env c (go role) v)).1 ≡ role_text role
  unfolding act
  act-recorded role v h =
      ground (arith, text_eq_iff (read_state (env.runner role v).1) (role_text role))

  -- Success means that the change is on record: where a tick ran a notify script and returned 0, the
  -- state file reads the role that it was run for, whatever the script did and returned.
  pub run-recorded :
      (w : World Server) (role : Role)
      → (plan env c w).0 ≡ ok (go role)
      → (run env c w).0 ≡ ok (pos 0)
      → read_state (run env c w).1 ≡ role_text role
  unfolding run
  run-recorded w role h zero_code = go_on (plan env c w) h zero_code
    where
      go_on :
          (r : Result Plan × World Server)
          → r.0 ≡ ok (go role)
          → (reported env c (after (act env c) r)).0 ≡ ok (pos 0)
          → read_state (reported env c (after (act env c) r)).1 ≡ role_text role
      go_on (ok (go r), v) e = let same : r ≡ role = cc in rw same (act-recorded role v)
      go_on (ok stay, v) e = cc
      go_on (err failure, v) e = cc
