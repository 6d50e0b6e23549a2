-- ===== src/Promoter/Demotion.antt =====
-- cluster_promoter.py: `run` on a leader that has gone silent, or is asked to hand over.
use ha_cluster_state_sync.Prelude.{
  ◌≡◌, ◌≢◌, ◌⊎◌, unless, ◌∙◌, sym, subst, inl, inr, Bool, true, false, none, some, [], Text, codes,
  text_eq, text_eq_iff, arith, ap,
}
use ha_cluster_state_sync.Store.{RedisLaws}
use ha_cluster_state_sync.Lease.{release_script}
use ha_cluster_state_sync.Lease.Scripts.{release_script_outcome}
use ha_cluster_state_sync.Promoter.World.{World, Env, Config, Result, ok, backup, Http, utf8}
use ha_cluster_state_sync.Promoter.State.{read_state, decide, recently_touched, touched_at}
use ha_cluster_state_sync.Promoter.Health.{probe_ha, grace_extended, write_reason}
use ha_cluster_state_sync.Promoter.Tick.{
  Plan, go, plan, settled, settle, must_release, release_tick, handover_tick, key,
}
use ha_cluster_state_sync.Promoter.Frames.{IsServed, remote}
use ha_cluster_state_sync.Promoter.Unheld.{NoHold, unheld_plan}

module _ {Server : Type 0} (env : Env Server) (c : Config) where
  -- The leader, with no request and no override, whose Home Assistant does not answer and whose
  -- grace is over, the extended one too.
  pub record IsSilent (w : World Server) : Type 0 where
    pub leader : text_eq (read_state w) (codes "MASTER") ≡ true
    pub no_request : w.handover_file ≡ none
    pub no_override : w.force_file ≡ false
    pub base_over : recently_touched (touched_at w.state_file) c.base_grace w ≡ false
    pub ceiling_over : recently_touched (touched_at w.state_file) c.probe_grace w ≡ false
    pub probing : c.no_probe ≡ false
    pub no_answer : w.http ≡ Http.silent

  IsSilent-remote : (v w : World Server) → IsSilent w → IsSilent (remote w v)
  unfolding read_state recently_touched
  IsSilent-remote v w h = record {
    leader = h.leader;
    no_request = h.no_request;
    no_override = h.no_override;
    base_over = ground (arith, h.base_over);
    ceiling_over = ground (arith, h.ceiling_over);
    probing = h.probing;
    no_answer = h.no_answer;
  }

  -- Where a branch has released: the tick has no lease, and its hold-down begins now.
  pub record Released (w : World Server) (r : Result Bool × World Server) : Type 0 where
    pub answer : r.0 ≡ ok false
    pub not_holder : env.redis.get (key env c) r.1.server ≢ some c.node_id
    pub held_down : w.refusals.touch_holddown ≡ false → r.1.holddown ≡ some w.now

  module _ (laws : RedisLaws env.redis) where
    not_holder_after :
        (s : Server)
        → env.redis.get (key env c) (release_script env.redis (key env c) c.node_id s).1
          ≢ some c.node_id
    not_holder_after s = elim (release_script_outcome env.redis laws (key env c) c.node_id s) [
      | inl (_, _, free) ↦ λ e. ground arith
      | inr (other, same) ↦ λ e. other (rw same at e)
    ]

    release_tick-Released : (w : World Server) → w.links ≡ [] → Released w (release_tick env c w)
    unfolding release_tick
    release_tick-Released w reach = record {
      answer = ground arith;
      not_holder =
          let same : (release_tick env c w).1.server
              ≡ (release_script env.redis (key env c) c.node_id w.server).1 =
            ground arith in
          rw same (not_holder_after w.server);
      held_down = λ h. ground arith;
    }

    must_release_silent :
        (w : World Server)
        → IsSilent w
        → (v : World Server) × (must_release env c true w ≡ (ok true, v))
          × (v.server ≡ w.server)
          × (v.links ≡ w.links)
          × (v.refusals ≡ w.refusals)
          × (v.now ≡ w.now)
    unfolding must_release grace_extended write_reason probe_ha
    must_release_silent w h = (
      (must_release env c true w).1,
      ground arith,
      ground arith,
      ground arith,
      ground arith,
      ground arith,
    )

    settle_silent :
        (w : World Server) → IsSilent w → w.links ≡ [] → Released w (settle env c true w)
    unfolding settle
    settle_silent w h reach =
        let (v, released, _, links, refusals, now) = must_release_silent w h in
        let r = release_tick-Released v (links ∙ reach) in
        let same : settle env c true w ≡ release_tick env c v =
          ground (arith, h.no_override, h.no_request) in
        rw same (record {
          answer = r.answer;
          not_holder = r.not_holder;
          held_down = λ e. r.held_down (rw refusals e) ∙ rw now;
        })

    decide-demotes :
        (previous : Text)
        → text_eq previous (codes "MASTER") ≡ true
        → decide false previous ≡ some backup
    unfolding decide text_eq
    decide-demotes previous h = rw ((text_eq_iff previous (codes "MASTER")).0 h)

    settled-demotes :
        (w : World Server)
        → text_eq (read_state w) (codes "MASTER") ≡ true
        → (settle env c true w).0 ≡ ok false
        → ((settled env c (read_state w) w).0 ≡ ok (go backup))
          × ((settled env c (read_state w) w).1 ≡ (settle env c true w).1)
    unfolding settled
    settled-demotes w leader no_lease = (
      ground (arith, decide-demotes (read_state w) leader),
      ground (arith, decide-demotes (read_state w) leader),
    )

    -- What a demotion leaves: the notify script for BACKUP is next, this node does not hold the
    -- lease, and its hold-down has begun, unless the marker cannot be written.
    abbrev pub Demotes : World Server → Type 0
    Demotes w =
        ((plan env c w).0 ≡ ok (go backup))
        × (env.redis.get (key env c) (plan env c w).1.server ≢ some c.node_id)
        × ((w.refusals.touch_holddown ≡ true) ⊎ ((plan env c w).1.holddown ≡ some w.now))

    Released-Demotes :
        (w v : World Server)
        → v ≡ remote w v
        → plan env c w ≡ settled env c (read_state w) v
        → text_eq (read_state w) (codes "MASTER") ≡ true
        → Released v (settle env c true v)
        → Demotes w × ((plan env c w).1 ≡ (settle env c true v).1)
    unfolding read_state
    Released-Demotes w v frame goes leader r =
        let state : read_state v ≡ read_state w = ap (λ (x : World Server). read_state x) frame in
        let (role, same) = settled-demotes v (rw state leader) r.answer in
        let e : plan env c w ≡ settled env c (read_state v) v =
          goes ∙ ap (λ (p : Text). settled env c p v) (sym state) in
        let world : (plan env c w).1 ≡ (settle env c true v).1 =
          ap (λ (x : Result Plan × World Server). x.1) e ∙ same in
        (
          (
            ap (λ (x : Result Plan × World Server). x.0) e ∙ role,
            rw world r.not_holder,
            unless w.refusals.touch_holddown (λ t.
                let touched =
                  r.held_down (ap (λ (x : World Server). x.refusals.touch_holddown) frame ∙ t) in
                ap (λ (x : World Server). x.holddown) world
                ∙ (touched ∙ ap (λ (x : World Server). some x.now) frame)),
          ),
          world,
        )

    -- A leader whose Home Assistant does not answer and whose longest grace is over demotes and
    -- gives up the lease, whatever Docker says of the container: a container that restarts for
    -- ever does not put failover off. Its hold-down begins, unless the marker cannot be written.
    -- The conditions: the probe is enabled, there is no force-master override and no handover
    -- request, no hold is set (no flag file, no key of the cluster), the server answers every command
    -- of the tick, and the times to live in the configuration are positive.
    pub silent_leader-Demotes :
        (w : World Server) → IsServed c → NoHold env c w → IsSilent w → w.links ≡ [] → Demotes w
    silent_leader-Demotes w served calm h reach =
        let (v, (frame, _, still), goes) = unheld_plan env c laws served w calm in
        let silent_v : IsSilent v = subst IsSilent (sym frame) (IsSilent-remote v w h) in
        (Released-Demotes w v frame goes h.leader (settle_silent v silent_v (still reach))).0

    -- The leader is asked to hand over; the request can be read as UTF-8, or not at all.
    pub record IsAsked (w : World Server) : Type 0 where
      pub leader : text_eq (read_state w) (codes "MASTER") ≡ true
      pub watched : c.has_handover_path ≡ true
      pub reason : Text
      pub request : w.handover_file ≡ some (utf8 reason)
      pub no_override : w.force_file ≡ false

    IsAsked-remote : (v w : World Server) → IsAsked w → IsAsked (remote w v)
    unfolding read_state
    IsAsked-remote v w h = record {
      leader = h.leader;
      watched = h.watched;
      reason = h.reason;
      request = h.request;
      no_override = h.no_override;
    }

    settle_asked :
        (w : World Server)
        → IsAsked w
        → w.links ≡ []
        → Released w (settle env c true w)
          × (w.refusals.unlink_handover ≡ false → (settle env c true w).1.handover_file ≡ none)
    unfolding settle handover_tick
    settle_asked w h reach =
        let same : (settle env c true w).1.server
            ≡ (release_script env.redis (key env c) c.node_id w.server).1 =
          ground arith in
        (
          record {
            answer = ground arith;
            not_holder = rw same (not_holder_after w.server);
            held_down = λ e. ground arith;
          },
          λ e. ground arith,
        )

    -- A handover that the operator asked for demotes the leader, whatever its Home Assistant and
    -- Docker answer, and gives up the lease; it starts the hold-down, unless the marker cannot be
    -- written, and consumes the request, unless its file cannot be removed. The conditions: the path
    -- of the request is watched and its text is UTF-8, there is no force-master override, no hold is
    -- set (no flag file, no key of the cluster), the server answers every command of the tick, and
    -- the times to live in the configuration are positive.
    pub handover-Demotes :
        (w : World Server)
        → IsServed c
        → NoHold env c w
        → IsAsked w
        → w.links ≡ []
        → Demotes w
          × ((w.refusals.unlink_handover ≡ true) ⊎ ((plan env c w).1.handover_file ≡ none))
    handover-Demotes w served calm h reach =
        let (v, (frame, _, still), goes) = unheld_plan env c laws served w calm in
        let asked_v : IsAsked v = subst IsAsked (sym frame) (IsAsked-remote v w h) in
        let (r, consumed) = settle_asked v asked_v (still reach) in
        let (demotes, world) = Released-Demotes w v frame goes h.leader r in
        (
          demotes,
          unless w.refusals.unlink_handover (λ e.
              ap (λ (x : World Server). x.handover_file) world
              ∙ consumed (ap (λ (x : World Server). x.refusals.unlink_handover) frame ∙ e)),
        )
