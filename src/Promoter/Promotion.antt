-- ===== src/Promoter/Promotion.antt =====
-- cluster_promoter.py: `run` where it promotes.
use ha_cluster_state_sync.Prelude.{
  ℕ, ◌≡◌, ◌≢◌, refl, ◌∙◌, ap, ◌⊎◌, inl, inr, Bool, true, false, some, List, [], ◌∷◌, Text, codes,
  text_eq, arith, Bool-cases,
}
use ha_cluster_state_sync.Store.{RedisLaws}
use ha_cluster_state_sync.Lease.{truthy, lease_ttl_ms, lease_script}
use ha_cluster_state_sync.Lease.Scripts.{HeldFor, lease_script_outcome}
use ha_cluster_state_sync.Promoter.World.{
  World, Link, up, refused, reply_lost, Env, Config, Result, ok, err, Failure, master,
}
use ha_cluster_state_sync.Promoter.Monad.{pure, call_on, after}
use ha_cluster_state_sync.Promoter.State.{decide, read_state}
use ha_cluster_state_sync.Promoter.Tick.{
  go, asks, plan, by_hold, settled, settle, turn, after_probe, must_release, drop_spent_holddown,
  handover_tick, release_tick, ordinary_tick, held_tick, key,
}
use ha_cluster_state_sync.Promoter.Frames.{IsServed, asks-IsBenign}
use ha_cluster_state_sync.Promoter.Health.{backup_is_serving}

module _ {Server : Type 0} (env : Env Server) (c : Config) where
  -- A tick raises at its questions, or goes on from the world that they leave.
  pub plan-cases :
      (w : World Server)
      → ((e : Failure) × ((asks env c w).0 ≡ err e) × (plan env c w ≡ (err e, (asks env c w).1)))
        ⊎ ((held : Bool) × ((asks env c w).0 ≡ ok held)
            × (plan env c w ≡ by_hold env c (read_state w) held (asks env c w).1))
  unfolding plan
  plan-cases w = go_on (asks env c w) refl
    where
      go_on :
          (r : Result Bool × World Server)
          → asks env c w ≡ r
          → ((e : Failure) × (r.0 ≡ err e)
              × (after (by_hold env c (read_state w)) r ≡ (err e, r.1)))
            ⊎ ((held : Bool) × (r.0 ≡ ok held)
                × (after (by_hold env c (read_state w)) r ≡ by_hold env c (read_state w) held r.1))
      go_on (ok held, v) e = inr (held, refl, refl)
      go_on (err e, v) _ = inl (e, refl, refl)

  decide_master :
      (holds : Bool) (previous : Text) → decide holds previous ≡ some master → holds ≡ true
  unfolding decide
  decide_master true previous h = refl
  decide_master false previous h = ground arith

  module _ (laws : RedisLaws env.redis) (served : IsServed c) where
    -- This node holds the lease for its whole time to live.
    abbrev pub HasLease : World Server → Type 0
    HasLease w = HeldFor env.redis laws (key env c) c.node_id (lease_ttl_ms c.ttl) w.server

    abbrev renewal : Server → ℕ × Server
    renewal = lease_script env.redis (key env c) c.node_id (lease_ttl_ms c.ttl)

    granted_reply :
        (s : Server)
        → truthy (renewal s).0 ≡ true
        → HeldFor env.redis laws (key env c) c.node_id (lease_ttl_ms c.ttl) (renewal s).1
    granted_reply s h =
        elim (lease_script_outcome env.redis laws (key env c) c.node_id (lease_ttl_ms c.ttl) s
          (omega (arith, served.lease))) [
            | inl yes_outcome ↦ yes_outcome.2
            | inr refusal ↦ absurd (ground (arith, refusal.2))
          ]

    call_lease :
        (ls : List Link) (w : World Server)
        → (after (λ reply. pure (truthy reply)) (call_on ls renewal w)).0 ≡ ok true
        → HasLease (after (λ reply. pure (truthy reply)) (call_on ls renewal w)).1
    call_lease [] w h = granted_reply w.server (ground arith)
    call_lease (up ∷ ls) w h = granted_reply w.server (ground arith)
    call_lease (refused ∷ ls) w h = cc
    call_lease (reply_lost ∷ ls) w h = cc

    ordinary_tick-HasLease :
        (is_master : Bool) (w : World Server)
        → (ordinary_tick env c is_master w).0 ≡ ok true
        → HasLease (ordinary_tick env c is_master w).1
    unfolding ordinary_tick
    ordinary_tick-HasLease is_master w h =
        let w1 = (drop_spent_holddown env c is_master w).1 in call_lease w1.links w1 h

    handover_tick-no : (w : World Server) → (handover_tick env c w).0 ≢ ok true
    unfolding handover_tick
    handover_tick-no w h = ground arith

    release_tick-no : (w : World Server) → (release_tick env c w).0 ≢ ok true
    unfolding release_tick
    release_tick-no w h = ground arith

    after_probe-HasLease :
        (is_master : Bool) (r : Result Bool × World Server)
        → (after (after_probe env c is_master) r).0 ≡ ok true
        → HasLease (after (after_probe env c is_master) r).1
    after_probe-HasLease is_master (ok true, w) h = absurd (release_tick-no w h)
    after_probe-HasLease is_master (ok false, w) h =
        ground (arith, ordinary_tick-HasLease is_master w)
    after_probe-HasLease is_master (err e, w) h = cc

    settle-HasLease :
        (is_master : Bool) (w : World Server)
        → w.force_file ≡ false
        → (settle env c is_master w).0 ≡ ok true
        → HasLease (settle env c is_master w).1
    unfolding settle
    settle-HasLease is_master w calm h =
        ground (
          arith,
          handover_tick-no w,
          after_probe-HasLease is_master (must_release env c is_master w),
        )

    turn_master :
        (previous : Text) (r : Result Bool × World Server)
        → (after (λ holds w. (ok (turn env c (decide holds previous) previous holds w), w)) r).0
          ≡ ok (go master)
        → (r.0 ≡ ok true)
          × ((after (λ holds w. (ok (turn env c (decide holds previous) previous holds w), w)) r).1
              ≡ r.1)
    turn_master previous (ok holds, w) h =
        ground (arith, decide_master holds previous, backup_is_serving c previous holds w)
    turn_master previous (err e, w) h = cc

    settled-HasLease :
        (previous : Text) (w : World Server)
        → w.force_file ≡ false
        → (settled env c previous w).0 ≡ ok (go master)
        → HasLease (settled env c previous w).1
    unfolding settled
    settled-HasLease previous w calm h =
        let m = text_eq previous (codes "MASTER") in
        let (holds, same) = turn_master previous (settle env c m w) h in
        rw same (settle-HasLease m w calm holds)

    by_hold-HasLease :
        (previous : Text) (held : Bool) (w : World Server)
        → w.force_file ≡ false
        → (by_hold env c previous held w).0 ≡ ok (go master)
        → HasLease (by_hold env c previous held w).1
    unfolding held_tick
    by_hold-HasLease previous held w calm h = ground (arith, settled-HasLease previous w calm)

    -- A tick comes to a promotion only where force-master is in place, or where the server has just
    -- granted this node the lease for its whole time to live.
    pub plan-promotes :
        (w : World Server)
        → (plan env c w).0 ≡ ok (go master)
        → (w.force_file ≡ true) ⊎ HasLease (plan env c w).1
    plan-promotes w h = elim (Bool-cases w.force_file) [
      | inl forced ↦ inl forced
      | inr calm ↦ elim (plan-cases w) [
        | inl (e, _, raised) ↦ absurd (ground arith)
        | inr (held, _, goes) ↦
            let v = (asks env c w).1 in
            let same : v.force_file ≡ false =
              ap (λ (x : World Server). x.force_file) (asks-IsBenign env laws c served w).0
              ∙ calm in
            inr (rw goes (by_hold-HasLease (read_state w) held v same (rw goes at h)))
      ]
    ]
