-- ===== src/Promoter/Unheld.antt =====
-- cluster_promoter.py: `run` where no maintenance hold is in force, up to its branches.
use ha_cluster_state_sync.Prelude.{◌≡◌, ◌∙◌, inl, inr, Bool, false, none, arith, ap}
use ha_cluster_state_sync.Store.{RedisLaws}
use ha_cluster_state_sync.Promoter.World.{World, Env, Config, Result, ok, err}
use ha_cluster_state_sync.Promoter.Monad.{after}
use ha_cluster_state_sync.Promoter.Keys.{hold_key, leader_key, promoter_key-ne-hold_key}
use ha_cluster_state_sync.Promoter.Holds.{read_cluster_hold}
use ha_cluster_state_sync.Promoter.State.{read_state}
use ha_cluster_state_sync.Promoter.Tick.{beat, local_held, cluster_held, asks, plan, settled}
use ha_cluster_state_sync.Promoter.Frames.{
  IsServed, Benign, asks-IsBenign, beat-keeps, joined, ask_holds,
}
use ha_cluster_state_sync.Promoter.Promotion.{plan-cases}
use ha_cluster_state_sync.Promoter.Maintenance.{beat-ok}

module _ {Server : Type 0} (env : Env Server) (c : Config) where
  -- No hold on this node and none on the server, and no override.
  pub record NoHold (w : World Server) : Type 0 where
    pub no_file : w.hold_file ≡ none
    pub no_key : env.redis.get (hold_key c.namespace) w.server ≡ none
    pub no_force : w.force_file ≡ false

  local_held-none : (w : World Server) → w.hold_file ≡ none → local_held env c w ≡ (ok false, w)
  unfolding local_held
  local_held-none w e = ground arith

  cluster_held-none :
      (w : World Server)
      → env.redis.get (hold_key c.namespace) w.server ≡ none
      → (cluster_held env c w).0 ≡ ok false
  unfolding cluster_held read_cluster_hold
  cluster_held-none w e = ground arith

  module _ (laws : RedisLaws env.redis) (served : IsServed c) where
    unheld_answer :
        (v : World Server)
        → v.hold_file ≡ none
        → env.redis.get (hold_key c.namespace) v.server ≡ none
        → (ask_holds env c tt v).0 ≡ ok false
    unheld_answer v no_file no_key =
        rw (local_held-none v no_file) (go_on (cluster_held env c v) (cluster_held-none v no_key))
      where
        go_on :
            (r : Result Bool × World Server)
            → r.0 ≡ ok false
            → (after (joined env c false) r).0 ≡ ok false
        go_on (ok x, u) e = e
        go_on (err e, u) x = cc

    asks_unheld : (w : World Server) → NoHold w → (asks env c w).0 ≡ ok false
    unfolding asks
    asks_unheld w h =
        let kept =
          beat-keeps env laws c served _ (promoter_key-ne-hold_key c.namespace c.node_id) w in
        go_on (beat env c w) (beat-ok env c w)
          (ap (λ (x : World Server). x.hold_file) kept.0 ∙ h.no_file) (kept.1.0 ∙ h.no_key)
      where
        go_on :
            (r : Result (Unit {0}) × World Server)
            → r.0 ≡ ok tt
            → r.1.hold_file ≡ none
            → env.redis.get (hold_key c.namespace) r.1.server ≡ none
            → (after (ask_holds env c) r).0 ≡ ok false
        go_on (ok u, v) _ no_file no_key = unheld_answer v no_file no_key
        go_on (err e, v) x _ _ = cc

    -- Without a hold a tick is its branches, run in a world with the same files and lease.
    pub unheld_plan :
        (w : World Server)
        → NoHold w
        → (v : World Server) × Benign env.redis (leader_key c.namespace) w v
          × (plan env c w ≡ settled env c (read_state w) v)
    unheld_plan w h = elim (plan-cases env c w) [
      | inl (e, raised, _) ↦ absurd (ground (arith, asks_unheld w h))
      | inr (b, asked, goes) ↦
          let no_hold : b ≡ false = cc (asks_unheld w h) in
          ((asks env c w).1, asks-IsBenign env laws c served w, goes ∙ rw no_hold)
    ]
