-- ===== src/Promoter/Ends.antt =====
-- cluster_promoter.py: how `run` ends: an exit code, or an exception that it does not catch.
use ha_cluster_state_sync.Prelude.{
  ℤ, pos, ◌≡◌, ◌≢◌, refl, ap, subst, ◌⊎◌, inl, inr, Bool, true, false, ◌||◌, Option, none, some,
  List, [], ◌∷◌, Text, codes, text_eq, arith, if-either, not, ◌&&◌,
}
use ha_cluster_state_sync.Store.{RedisLaws}
use ha_cluster_state_sync.Lease.{truthy}
use ha_cluster_state_sync.Promoter.World.{
  World, Env, Config, Content, broken, Result, ok, err, Failure, Role, Link, up, refused,
  reply_lost,
}
use ha_cluster_state_sync.Promoter.Monad.{M, after, call, call_on, caught, ◌>>=◌}
use ha_cluster_state_sync.Promoter.Health.{grace_extended, write_reason}
use ha_cluster_state_sync.Promoter.Holds.{hold_is_expired}
use ha_cluster_state_sync.Promoter.State.{read_state, decide, recently_touched}
use ha_cluster_state_sync.Promoter.Tick.{
  Plan, stay, go, asks, beat, local_held, cluster_held, plan, act, run, reported, by_hold, settled,
  settle, held_tick, force_tick, mark_force_used, handover_tick, release_tick, ordinary_tick,
  must_release, after_probe, present, turn,
}
use ha_cluster_state_sync.Promoter.Frames.{
  IsServed, remote, ask_holds, beat-IsBenign, asks-IsBenign,
}
use ha_cluster_state_sync.Promoter.Promotion.{plan-cases}
use ha_cluster_state_sync.Promoter.Maintenance.{beat-ok, cluster_held-ok}

-- A file whose bytes are not UTF-8.
abbrev pub IsTorn : Option Content → Type 0
IsTorn none = ⊥
IsTorn (some (Content.utf8 t)) = ⊥
IsTorn (some (broken t)) = Unit

module _ {Server : Type 0} where
  -- It never raises what `run` does not catch.
  abbrev IsCaught : {A : Type 0} → Result A × World Server → Type 0
  IsCaught r = r.0 ≢ err Failure.value_error

  call_on-IsCaught :
      {A : Type 0} (ls : List Link) (f : Server → A × Server) (w : World Server)
      → IsCaught (call_on ls f w)
  call_on-IsCaught [] f w h = cc
  call_on-IsCaught (up ∷ ls) f w h = cc
  call_on-IsCaught (refused ∷ ls) f w h = cc
  call_on-IsCaught (reply_lost ∷ ls) f w h = cc

  call-IsCaught : {A : Type 0} (f : Server → A × Server) (w : World Server) → IsCaught (call f w)
  call-IsCaught f w = call_on-IsCaught w.links f w

  caught-IsCaught : {A : Type 0} (a : A) (r : Result A × World Server) → IsCaught (caught a r)
  caught-IsCaught a (ok b, w) h = cc
  caught-IsCaught a (err e, w) h = cc

  after-IsCaught :
      {A B : Type 0} (f : A → M Server B) (r : Result A × World Server)
      → IsCaught r
      → ((a : A) (v : World Server) → IsCaught (f a v))
      → IsCaught (after f r)
  after-IsCaught f (ok a, v) h g e = g a v e
  after-IsCaught f (err x, v) h g e = h (cc)

  returns-IsCaught :
      {A B : Type 0} (f : A → B) (r : Result A × World Server)
      → IsCaught r
      → IsCaught (after (λ a v. (ok (f a), v)) r)
  returns-IsCaught f (ok a, v) h e = cc
  returns-IsCaught f (err x, v) h e = h (cc)

module _ {Server : Type 0} (env : Env Server) (c : Config) where
  local_held-IsTorn :
      (w : World Server) → (local_held env c w).0 ≡ err Failure.value_error → IsTorn w.hold_file
  unfolding local_held hold_is_expired
  local_held-IsTorn w h = ground arith

  ask_holds-IsTorn :
      (w : World Server) → (ask_holds env c tt w).0 ≡ err Failure.value_error → IsTorn w.hold_file
  ask_holds-IsTorn w = go_on (local_held env c w) (local_held-IsTorn w)
    where
      go_on :
          (r : Result Bool × World Server)
          → (r.0 ≡ err Failure.value_error → IsTorn w.hold_file)
          → (after (λ local. cluster_held env c >>= λ cluster v. (ok (local || cluster), v)) r).0
            ≡ err Failure.value_error
          → IsTorn w.hold_file
      go_on (ok local, v) torn h = absurd (
          returns-IsCaught (λ cluster. local || cluster) (cluster_held env c v)
            (λ e. let (b, fine) = cluster_held-ok env c v in cc) h)
      go_on (err e, v) torn h = torn (cc)

  release_tick-IsCaught : (w : World Server) → IsCaught (release_tick env c w)
  unfolding release_tick
  release_tick-IsCaught w = after-IsCaught _ (call _ w) (call-IsCaught _ w) (λ a v e. cc)

  ordinary_tick-IsCaught : (m : Bool) (w : World Server) → IsCaught (ordinary_tick env c m w)
  unfolding ordinary_tick
  ordinary_tick-IsCaught m w = returns-IsCaught truthy (call _ _) (call-IsCaught _ _)

  must_release-IsCaught : (m : Bool) (w : World Server) → IsCaught (must_release env c m w)
  unfolding must_release grace_extended write_reason
  must_release-IsCaught m w h = ground arith

  force_tick-IsCaught : (w : World Server) → IsCaught (force_tick env c w)
  unfolding force_tick mark_force_used
  force_tick-IsCaught w h = ground arith

  handover_tick-IsTorn :
      (w : World Server)
      → (handover_tick env c w).0 ≡ err Failure.value_error
      → IsTorn w.handover_file
  unfolding handover_tick
  handover_tick-IsTorn w h = ground arith

  after_probe-IsCaught : (m r : Bool) (w : World Server) → IsCaught (after_probe env c m r w)
  after_probe-IsCaught m true w = release_tick-IsCaught w
  after_probe-IsCaught m false w =
      if-either IsCaught (not m && recently_touched w.holddown c.release_holddown w) _ _ (λ e. cc)
        (ordinary_tick-IsCaught m w)

  settle-IsTorn :
      (m : Bool) (w : World Server)
      → (settle env c m w).0 ≡ err Failure.value_error
      → IsTorn w.handover_file
  unfolding settle
  settle-IsTorn m w =
      if-either Torn w.force_file _ _ (λ h. absurd (force_tick-IsCaught w h))
        (if-either Torn (m && c.has_handover_path && present env c w.handover_file) _ _
          (handover_tick-IsTorn w)
          (λ h. absurd (
            after-IsCaught (after_probe env c m) (must_release env c m w)
              (must_release-IsCaught m w) (after_probe-IsCaught m) h)))
    where
      Torn : Result Bool × World Server → Type 0
      Torn r = r.0 ≡ err Failure.value_error → IsTorn w.handover_file

  settled-IsTorn :
      (previous : Text) (w : World Server)
      → (settled env c previous w).0 ≡ err Failure.value_error
      → IsTorn w.handover_file
  unfolding settled
  settled-IsTorn previous w =
      go_on (settle env c (text_eq previous (codes "MASTER")) w) (settle-IsTorn _ w)
    where
      go_on :
          (r : Result Bool × World Server)
          → (r.0 ≡ err Failure.value_error → IsTorn w.handover_file)
          → (after (λ holds v. (ok (turn env c (decide holds previous) previous holds v), v)) r).0
            ≡ err Failure.value_error
          → IsTorn w.handover_file
      go_on (ok holds, v) torn h = cc
      go_on (err e, v) torn h = torn (cc)

  held_tick-IsCaught : (w : World Server) → IsCaught (held_tick env c w)
  unfolding held_tick
  held_tick-IsCaught w = after-IsCaught _ (call _ w) (call-IsCaught _ w) (λ a v e. cc)

  by_hold-IsTorn :
      (previous : Text) (held : Bool) (w : World Server)
      → (by_hold env c previous held w).0 ≡ err Failure.value_error
      → IsTorn w.handover_file
  by_hold-IsTorn previous held w =
      if-either
        (λ (r : Result Plan × World Server). r.0 ≡ err Failure.value_error → IsTorn w.handover_file)
        (held && not w.force_file) _ _ (λ h. absurd (held_tick-IsCaught w h))
        (settled-IsTorn previous w)

  -- The notify script itself has raised what `run` does not catch.
  abbrev pub ScriptRaises : World Server → Type 0
  ScriptRaises w =
      (role : Role) × ((plan env c w).0 ≡ ok (go role))
      × ((env.runner role (plan env c w).1).0 ≡ err Failure.value_error)

  reported-ends :
      (r : Result ℤ × World Server)
      → ((code : ℤ) × ((reported env c r).0 ≡ ok code))
        ⊎ ((r.0 ≡ err Failure.value_error) × ((reported env c r).0 ≡ err Failure.value_error))
  reported-ends (ok code, v) = inl (code, refl)
  reported-ends (err Failure.valkey_error, v) = inl (pos 1, refl)
  reported-ends (err Failure.os_error, v) = inl (pos 1, refl)
  reported-ends (err Failure.value_error, v) = inr (refl, refl)

  act-raises :
      (role : Role) (v : World Server)
      → (act env c (go role) v).0 ≡ err Failure.value_error
      → (env.runner role v).0 ≡ err Failure.value_error
  unfolding act
  act-raises role v h = ground arith

  act-stay : (v : World Server) → act env c stay v ≡ (ok (pos 0), v)
  unfolding act
  act-stay v = refl

  module _ (laws : RedisLaws env.redis) (served : IsServed c) where
    asks-IsTorn :
        (w : World Server) → (asks env c w).0 ≡ err Failure.value_error → IsTorn w.hold_file
    unfolding asks
    asks-IsTorn w = go_on (beat env c w) (beat-ok env c w) (beat-IsBenign env laws c served w).0
      where
        go_on :
            (r : Result (Unit {0}) × World Server)
            → r.0 ≡ ok tt
            → r.1 ≡ remote w r.1
            → (after (ask_holds env c) r).0 ≡ err Failure.value_error
            → IsTorn w.hold_file
        go_on (ok u, v) _ frame h =
            subst IsTorn (ap (λ (x : World Server). x.hold_file) frame) (ask_holds-IsTorn v h)
        go_on (err e, v) x _ h = cc

    plan-IsTorn :
        (w : World Server)
        → (plan env c w).0 ≡ err Failure.value_error
        → IsTorn w.hold_file ⊎ IsTorn w.handover_file
    plan-IsTorn w h = elim (plan-cases env c w) [
      | inl (e, raised, ends) ↦ inl (asks-IsTorn w (cc))
      | inr (held, _, goes) ↦
          let v = (asks env c w).1 in
          let frame : v ≡ remote w v = (asks-IsBenign env laws c served w).0 in
          inr (
            subst IsTorn (ap (λ (x : World Server). x.handover_file) frame)
              (by_hold-IsTorn (read_state w) held v (rw goes at h)))
    ]

    -- A tick comes to an exit code, whatever the server and the operating system refuse, but for
    -- three exceptions that leave it: the hold's file is not UTF-8, the file of the handover request
    -- is not, or the notify script that the tick ran has itself raised such an exception. The times
    -- to live in the configuration are positive.
    pub run-returns :
        (w : World Server)
        → ((code : ℤ) × ((run env c w).0 ≡ ok code))
          ⊎ (((run env c w).0 ≡ err Failure.value_error)
              × (IsTorn w.hold_file ⊎ IsTorn w.handover_file ⊎ ScriptRaises w))
    unfolding run
    run-returns w = go_on (plan env c w) (plan-IsTorn w) refl
      where
        go_on :
            (r : Result Plan × World Server)
            → (r.0 ≡ err Failure.value_error → IsTorn w.hold_file ⊎ IsTorn w.handover_file)
            → plan env c w ≡ r
            → ((code : ℤ) × ((reported env c (after (act env c) r)).0 ≡ ok code))
              ⊎ (((reported env c (after (act env c) r)).0 ≡ err Failure.value_error)
                  × (IsTorn w.hold_file ⊎ IsTorn w.handover_file ⊎ ScriptRaises w))
        go_on (ok (go role), v) torn e = elim (reported-ends (act env c (go role) v)) [
          | inl code ↦ inl code
          | inr (raised, ends) ↦
              inr (ends, inr (inr (role, rw e refl, rw e (act-raises role v raised))))
        ]
        go_on (ok stay, v) torn e = inl (pos 0, ap (λ r. (reported env c r).0) (act-stay v))
        go_on (err x, v) torn e = elim (reported-ends (err x, v)) [
          | inl code ↦ inl code
          | inr (raised, ends) ↦ elim (torn (cc)) [
            | inl hold ↦ inr (ends, inl hold)
            | inr request ↦ inr (ends, inr (inl request))
          ]
        ]
