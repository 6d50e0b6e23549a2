-- ===== src/Promoter/Maintenance.antt =====
-- cluster_promoter.py: `run` under a maintenance hold, and on a hold file that is not UTF-8.
use ha_cluster_state_sync.Prelude.{
  ℕ, ◌⊎◌, ◌≡◌, ◌≢◌, refl, ◌∙◌, sym, ap, subst, inl, inr, Bool, true, false, Option, none, some,
  List, [], ◌∷◌, Text, text_eq_iff, arith, Option-cases, Bool-cases, text_eq,
}
use ha_cluster_state_sync.Store.{RedisLaws}
use ha_cluster_state_sync.Lease.{lease_ttl_ms, renew_only_script}
use ha_cluster_state_sync.Promoter.World.{
  World, Link, up, refused, reply_lost, Env, Config, Result, ok, err, Failure, Role, utf8, broken,
}
use ha_cluster_state_sync.Promoter.Monad.{pure, gets, call_on, after, caught}
use ha_cluster_state_sync.Promoter.Holds.{text_is_expired, hold_is_expired, read_cluster_hold}
use ha_cluster_state_sync.Promoter.Tick.{
  Plan, go, beat, send_beat, measured, local_held, cluster_held, holds_cluster, asks, plan, run,
  held_tick, key,
}
use ha_cluster_state_sync.Promoter.Frames.{
  IsServed, SameKey, asks-IsBenign, beat-IsBenign, remote, joined, ask_holds,
}
use ha_cluster_state_sync.Promoter.Promotion.{plan-cases}

own_or_other : {P : Type 0} (o : Option Text) (t : Text) → (o ≢ some t → P) → (o ≡ some t) ⊎ P
own_or_other none t f = inr (f (ground arith))
own_or_other (some s) t f = elim (Bool-cases (text_eq s t)) [
  | inl same ↦ inl (ap some ((text_eq_iff s t).0 same))
  | inr other ↦ inr (f (ground (arith, text_eq_iff s t)))
]

module _ {Server : Type 0} (env : Env Server) (c : Config) where
  -- The local file is there, is UTF-8, and names no deadline that has passed.
  pub record LocalHold (w : World Server) : Type 0 where
    pub watched : c.has_hold_path ≡ true
    pub text : Text
    pub file : w.hold_file ≡ some (utf8 text)
    pub in_force : text_is_expired env.fromisoformat w.now text ≡ false

  caught-ok : {A : Type 0} (a : A) (r : Result A × World Server) → (b : A) × ((caught a r).0 ≡ ok b)
  caught-ok a (ok b, v) = (b, refl)
  caught-ok a (err e, v) = (a, refl)

  -- The heartbeat is best effort: it always comes back.
  pub beat-ok : (w : World Server) → (beat env c w).0 ≡ ok tt
  unfolding beat
  beat-ok w = go_on (measured env c w) (caught-ok none _)
    where
      go_on :
          (r : Result (Option (ℕ × ℕ × ℕ)) × World Server)
          → ((o : Option (ℕ × ℕ × ℕ)) × (r.0 ≡ ok o))
          → (after (send_beat env c) r).0 ≡ ok tt
      go_on (ok o, v) h = (caught-ok tt _).1
      go_on (err e, v) (o, h) = cc

  pub cluster_held-ok : (w : World Server) → (b : Bool) × ((cluster_held env c w).0 ≡ ok b)
  unfolding cluster_held read_cluster_hold
  cluster_held-ok w = go_on (read_cluster_hold env c w) (caught-ok none _)
    where
      go_on :
          (r : Result (Option Text) × World Server)
          → ((o : Option Text) × (r.0 ≡ ok o))
          → (b : Bool) × ((after (λ text. gets (holds_cluster env c text)) r).0 ≡ ok b)
      go_on (ok o, v) h = (holds_cluster env c o v, refl)
      go_on (err e, v) (o, h) = cc

  local_held_lem : (w : World Server) → LocalHold w → local_held env c w ≡ (ok true, w)
  unfolding local_held hold_is_expired
  local_held_lem w h = ground (arith, h.watched, h.file, h.in_force)

  LocalHold-remote : (v w : World Server) → v ≡ remote w v → LocalHold w → LocalHold v
  LocalHold-remote v w e h =
      subst LocalHold (sym e)
        (record { watched = h.watched; text = h.text; file = h.file; in_force = h.in_force })

  -- The local file is there and can be read, and is not UTF-8.
  pub record BrokenHold (w : World Server) : Type 0 where
    pub watched : c.has_hold_path ≡ true
    pub text : Text
    pub readable : w.refusals.read_hold ≡ false
    pub file : w.hold_file ≡ some (broken text)

  BrokenHold-remote : (v w : World Server) → BrokenHold w → BrokenHold (remote w v)
  BrokenHold-remote v w h = record {
    watched = h.watched;
    text = h.text;
    readable = h.readable;
    file = h.file;
  }

  local_held-raises :
      (w : World Server) → BrokenHold w → local_held env c w ≡ (err Failure.value_error, w)
  unfolding local_held hold_is_expired
  local_held-raises w h = ground (arith, h.watched, h.readable, h.file)

  module _ (laws : RedisLaws env.redis) (served : IsServed c) where
    held_answer : (v : World Server) → LocalHold v → (ask_holds env c tt v).0 ≡ ok true
    held_answer v h =
        let (b, e) = cluster_held-ok v in rw (local_held_lem v h) (go_on (cluster_held env c v) b e)
      where
        go_on :
            (r : Result Bool × World Server) (b : Bool)
            → r.0 ≡ ok b
            → (after (joined env c true) r).0 ≡ ok true
        go_on (ok x, u) b e = refl
        go_on (err e, u) b x = cc

    asks_held : (w : World Server) → LocalHold w → (asks env c w).0 ≡ ok true
    unfolding asks
    asks_held w h = go_on (beat env c w) (beat-ok w) (beat-IsBenign env laws c served w).0
      where
        go_on :
            (r : Result (Unit {0}) × World Server)
            → r.0 ≡ ok tt
            → r.1 ≡ remote w r.1
            → (after (ask_holds env c) r).0 ≡ ok true
        go_on (ok u, v) _ e = held_answer v (LocalHold-remote v w e h)
        go_on (err e, v) x _ = cc

    held_tick-stays : (w : World Server) (role : Role) → (held_tick env c w).0 ≢ ok (go role)
    unfolding held_tick
    held_tick-stays w role h = ground arith

    -- Under the hold a tick that goes on goes by the renewal alone.
    held_plan :
        (w : World Server)
        → (asks env c w).0 ≡ ok true
        → w.force_file ≡ false
        → plan env c w ≡ held_tick env c (asks env c w).1
    held_plan w held calm = elim (plan-cases env c w) [
      | inl (e, raised, _) ↦ absurd (ground arith)
      | inr (b, asked, goes) ↦
          let same : (asks env c w).1.force_file ≡ false =
            ap (λ (x : World Server). x.force_file) (asks-IsBenign env laws c served w).0 ∙ calm in
          let yes_held : b ≡ true = cc in goes ∙ rw (yes_held, same)
    ]

    renewal_keeps :
        (s : Server)
        → env.redis.get (key env c) s ≢ some c.node_id
        → (renew_only_script env.redis (key env c) c.node_id (lease_ttl_ms c.ttl) s).1 ≡ s
    unfolding renew_only_script
    renewal_keeps s other = elim (Option-cases (env.redis.get (key env c) s)) [
      | inl free ↦ ground arith
      | inr (current, held) ↦ ground (arith, text_eq_iff current c.node_id)
    ]

    call_renewal_keeps :
        (ls : List Link) (w : World Server)
        → env.redis.get (key env c) w.server ≢ some c.node_id
        → (after
            (λ (reply : ℕ). pure Plan.stay)
            (call_on ls
              (renew_only_script env.redis (key env c) c.node_id (lease_ttl_ms c.ttl))
              w)).1.server
          ≡ w.server
    call_renewal_keeps [] w other = renewal_keeps w.server other
    call_renewal_keeps (up ∷ ls) w other = renewal_keeps w.server other
    call_renewal_keeps (refused ∷ ls) w other = refl
    call_renewal_keeps (reply_lost ∷ ls) w other = renewal_keeps w.server other

    -- Under a local hold that is in force, and without force-master, a tick runs no notify script,
    -- whatever the server, Home Assistant and Docker answer; and it never takes the lease: either
    -- this node held it before, or its key keeps its value and its time left.
    pub hold-binds :
        (w : World Server)
        → LocalHold w
        → w.force_file ≡ false
        → ((role : Role) → (plan env c w).0 ≢ ok (go role))
          × ((env.redis.get (key env c) w.server ≡ some c.node_id)
              ⊎ SameKey env.redis (key env c) w.server (plan env c w).1.server)
    unfolding held_tick
    hold-binds w h calm =
        let e = held_plan w (asks_held w h) calm in
        let v = (asks env c w).1 in
        let kept = (asks-IsBenign env laws c served w).1 in
        (
          λ role p. held_tick-stays v role (rw e at p),
          own_or_other (env.redis.get (key env c) w.server) c.node_id (λ other.
              let still : (held_tick env c v).1.server ≡ v.server =
                call_renewal_keeps v.links v (λ mine. other (sym kept.0 ∙ mine)) in
              rw (e, still) kept),
        )

    broken_answer :
        (v : World Server) → BrokenHold v → (ask_holds env c tt v).0 ≡ err Failure.value_error
    broken_answer v h = rw (local_held-raises v h)

    asks_broken : (w : World Server) → BrokenHold w → (asks env c w).0 ≡ err Failure.value_error
    unfolding asks
    asks_broken w h = go_on (beat env c w) (beat-ok w) (beat-IsBenign env laws c served w).0
      where
        go_on :
            (r : Result (Unit {0}) × World Server)
            → r.0 ≡ ok tt
            → r.1 ≡ remote w r.1
            → (after (ask_holds env c) r).0 ≡ err Failure.value_error
        go_on (ok u, v) _ e = broken_answer v (subst BrokenHold (sym e) (BrokenHold-remote v w h))
        go_on (err e, v) x _ = cc

    -- A hold's file that is not UTF-8 ends the tick by an exception that `run` does not catch,
    -- before any renewal: the lease's key keeps its value and its time left, in every such world.
    pub BrokenHold-raises :
        (w : World Server)
        → BrokenHold w
        → ((run env c w).0 ≡ err Failure.value_error)
          × SameKey env.redis (key env c) w.server (run env c w).1.server
    unfolding run
    BrokenHold-raises w h = elim (plan-cases env c w) [
      | inl (e, raised, ends) ↦
          let which : e ≡ Failure.value_error = cc (asks_broken w h) in
          rw (ends, which) (refl, (asks-IsBenign env laws c served w).1)
      | inr (b, asked, _) ↦ absurd (ground (arith, asks_broken w h))
    ]
