-- ===== src/Promoter/Standby.antt =====
-- cluster_promoter.py: `run` on a node that is not the leader, in its hold-down or not.
use ha_cluster_state_sync.Prelude.{
  ◌≡◌, ◌≢◌, ◌∙◌, sym, subst, ◌⊎◌, inl, inr, true, false, none, some, [], Text, codes, text_eq,
  text_eq_iff, arith, ap,
}
use ha_cluster_state_sync.Store.{RedisLaws}
use ha_cluster_state_sync.Lease.{lease_ttl_ms, lease_script}
use ha_cluster_state_sync.Lease.Scripts.{lease_script_outcome, HeldFor}
use ha_cluster_state_sync.Promoter.World.{World, Env, Config, Result, ok, master}
use ha_cluster_state_sync.Promoter.State.{read_state, decide, recently_touched}
use ha_cluster_state_sync.Promoter.Tick.{
  Plan, go, asks, plan, settled, settle, must_release, held_tick, ordinary_tick, key,
}
use ha_cluster_state_sync.Promoter.Frames.{IsServed, remote, asks-IsBenign}
use ha_cluster_state_sync.Promoter.Promotion.{plan-cases, HasLease}
use ha_cluster_state_sync.Promoter.Unheld.{NoHold, unheld_plan}

module _ {Server : Type 0} (env : Env Server) (c : Config) where
  -- Not the leader by its own state file, not overridden, and still in its hold-down.
  pub record IsHeldDown (w : World Server) : Type 0 where
    pub follower : text_eq (read_state w) (codes "MASTER") ≡ false
    pub no_override : w.force_file ≡ false
    pub recent : recently_touched w.holddown c.release_holddown w ≡ true

  IsHeldDown-remote : (v w : World Server) → IsHeldDown w → IsHeldDown (remote w v)
  unfolding read_state recently_touched
  IsHeldDown-remote v w h = record {
    follower = h.follower;
    no_override = h.no_override;
    recent = ground (arith, h.recent);
  }

  settle_held_down : (w : World Server) → IsHeldDown w → settle env c false w ≡ (ok false, w)
  unfolding settle must_release
  settle_held_down w h = ground (arith, h.no_override, h.recent)

  settled-not_master :
      (w : World Server) → IsHeldDown w → (settled env c (read_state w) w).0 ≢ ok (go master)
  unfolding settled decide
  settled-not_master w h e = ground (arith, settle_held_down w h, h.follower)

  decide-takes :
      (previous : Text)
      → text_eq previous (codes "MASTER") ≡ false
      → decide true previous ≡ some master
  unfolding decide
  decide-takes previous h =
      ground (arith, text_eq_iff previous (codes "MASTER"), text_eq_iff (codes "MASTER") previous)

  module _ (laws : RedisLaws env.redis) (served : IsServed c) where
    -- The hold-down: for as long as its window lasts, a node that is not the leader by its state file
    -- and has no force-master override does not promote, whoever holds the lease and whatever Home
    -- Assistant answers. The times to live in the configuration are positive.
    pub held_down-refuses : (w : World Server) → IsHeldDown w → (plan env c w).0 ≢ ok (go master)
    unfolding read_state held_tick
    held_down-refuses w h e = elim (plan-cases env c w) [
      | inl (_, _, raised) ↦ ground arith
      | inr (held, _, goes) ↦
          let v = (asks env c w).1 in
          let frame : v ≡ remote w v = (asks-IsBenign env laws c served w).0 in
          let h_v : IsHeldDown v = subst IsHeldDown (sym frame) (IsHeldDown-remote v w h) in
          let state : read_state v ≡ read_state w = ap (λ (x : World Server). read_state x) frame in
          ground (arith, settled-not_master v h_v, h_v.no_override)
    ]

    -- A node that may take the lease: no override, no hold-down, and the key is absent or its own.
    pub record IsReady (w : World Server) : Type 0 where
      pub follower : text_eq (read_state w) (codes "MASTER") ≡ false
      pub not_recent : recently_touched w.holddown c.release_holddown w ≡ false
      pub free :
          (env.redis.get (key env c) w.server ≡ none)
          ⊎ (env.redis.get (key env c) w.server ≡ some c.node_id)

    take_granted :
        (s : Server)
        → (env.redis.get (key env c) s ≡ none) ⊎ (env.redis.get (key env c) s ≡ some c.node_id)
        → let r = lease_script env.redis (key env c) c.node_id (lease_ttl_ms c.ttl) s in
          (r.0 ≡ 1) × HeldFor env.redis laws (key env c) c.node_id (lease_ttl_ms c.ttl) r.1
    take_granted s free =
        elim (lease_script_outcome env.redis laws (key env c) c.node_id (lease_ttl_ms c.ttl) s
          (omega (arith, served.lease))) [
            | inl yes_outcome ↦ (yes_outcome.1, yes_outcome.2)
            | inr (taken, others, _, _) ↦ elim free [
              | inl absent ↦ absurd (taken absent)
              | inr mine ↦ absurd (others mine)
            ]
          ]

    IsReady-after :
        (w v : World Server)
        → v ≡ remote w v
        → env.redis.get (key env c) v.server ≡ env.redis.get (key env c) w.server
        → IsReady w
        → IsReady v
    unfolding read_state recently_touched
    IsReady-after w v frame same h = record {
      follower =
          ap (λ (x : World Server). text_eq (read_state x) (codes "MASTER")) frame ∙ h.follower;
      not_recent =
          ap (λ (x : World Server). recently_touched x.holddown c.release_holddown x) frame
          ∙ ground (arith, h.not_recent);
      free = rw same h.free;
    }

    settle_ready :
        (w : World Server)
        → IsReady w
        → w.force_file ≡ false
        → w.links ≡ []
        → ((settle env c false w).0 ≡ ok true) × HasLease env c laws served (settle env c false w).1
    unfolding settle must_release ordinary_tick
    settle_ready w h calm reach =
        let (reply, held) = take_granted w.server h.free in
        let same : (settle env c false w).1.server
            ≡ (lease_script env.redis (key env c) c.node_id (lease_ttl_ms c.ttl) w.server).1 =
          ground (arith, h.not_recent) in
        (ground (arith, h.not_recent), rw same held)

    settled-promotes :
        (w : World Server)
        → text_eq (read_state w) (codes "MASTER") ≡ false
        → (settle env c false w).0 ≡ ok true
        → ((settled env c (read_state w) w).0 ≡ ok (go master))
          × ((settled env c (read_state w) w).1 ≡ (settle env c false w).1)
    unfolding settled
    settled-promotes w follower e =
        let takes = decide-takes (read_state w) follower in (ground arith, ground arith)

    -- Failover: a standby that finds the lease absent, or its own, takes it and promotes, whatever
    -- its own Home Assistant and Docker answer: the probe gates renewing, never taking. No hold is
    -- set (no flag file, no key of the cluster), there is no force-master override and no hold-down,
    -- the server answers every command of the tick, and the times to live in the configuration are
    -- positive.
    pub standby-promotes :
        (w : World Server)
        → NoHold env c w
        → IsReady w
        → w.links ≡ []
        → ((plan env c w).0 ≡ ok (go master)) × HasLease env c laws served (plan env c w).1
    unfolding read_state
    standby-promotes w calm h reach =
        let (v, (frame, same, still), goes) = unheld_plan env c laws served w calm in
        let ready = IsReady-after w v frame same.0 h in
        let no_force = ap (λ (x : World Server). x.force_file) frame ∙ calm.no_force in
        let (holds, lease) = settle_ready v ready no_force (still reach) in
        let (role, world) = settled-promotes v ready.follower holds in
        let state : read_state v ≡ read_state w = ap (λ (x : World Server). read_state x) frame in
        let e : plan env c w ≡ settled env c (read_state v) v =
          goes ∙ ap (λ (p : Text). settled env c p v) (sym state) in
        (
          ap (λ (x : Result Plan × World Server). x.0) e ∙ role,
          rw (ap (λ (x : Result Plan × World Server). x.1) e ∙ world) lease,
        )
