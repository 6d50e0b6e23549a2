-- ===== src/Promoter/Frames.antt =====
-- cluster_promoter.py: the steps of `run` before its branches, on the files and the lease.
use ha_cluster_state_sync.Prelude.{
  Option, Bool, false, ◌||◌, none, some, ℕ, ◌<◌, ◌≡◌, refl, ◌∙◌, ap, List, [], ◌∷◌, arith, Text,
  text_eq,
}
use ha_cluster_state_sync.Store.{Redis, RedisLaws}
use ha_cluster_state_sync.Promoter.World.{
  World, Link, up, refused, reply_lost, Env, Config, Result, ok, err,
}
use ha_cluster_state_sync.Promoter.Monad.{
  M, pure, gets, call, call_on, after, caught, or_else, ◌>>=◌,
}
use ha_cluster_state_sync.Promoter.Keys.{
  leader_key, hold_key, promoter_key, promoter_key-ne-leader_key,
}
use ha_cluster_state_sync.Promoter.Tick.{
  asks, beat, measured, payload, write_beat, send_beat, holds_cluster, local_held, cluster_held,
}
use ha_cluster_state_sync.Promoter.Holds.{hold_is_expired, read_cluster_hold}

-- A configuration whose times to live the server accepts.
pub record IsServed (c : Config) : Type 0 where
  pub lease : 0 < c.ttl
  pub heartbeat : 0 < c.heartbeat_ttl_ms

module _ {Server : Type 0} where
  -- `w` with the server and the links of `w'`.
  abbrev pub remote : World Server → World Server → World Server
  remote w w' = record w { server = w'.server; links = w'.links }

  module _ (redis : Redis Server) (key : Text) where
    -- The key has the same value and the same time left.
    abbrev pub SameKey : Server → Server → Type 0
    SameKey s s' = (redis.get key s' ≡ redis.get key s) × (redis.pttl key s' ≡ redis.pttl key s)

    -- No file differs, the key is as it was, and a server in reach stays so.
    abbrev pub Benign : World Server → World Server → Type 0
    Benign w w' = (w' ≡ remote w w') × SameKey w.server w'.server × (w.links ≡ [] → w'.links ≡ [])

    pub Benign-trans : (u v w : World Server) → Benign u v → Benign v w → Benign u w
    Benign-trans u v w p q =
        (q.0 ∙ ap (λ x. remote x w) p.0, (q.1.0 ∙ p.1.0, q.1.1 ∙ p.1.1), λ e. q.2 (p.2 e))

    abbrev pub IsBenign : {A : Type 0} → M Server A → Type 0
    IsBenign m = (w : World Server) → Benign w (m w).1

    after-Benign :
        {A B : Type 0} (f : A → M Server B) (w : World Server) (r : Result A × World Server)
        → ((a : A) → IsBenign (f a))
        → Benign w r.1
        → Benign w (after f r).1
    after-Benign f w (ok a, v) h b = Benign-trans w v (f a v).1 b (h a v)
    after-Benign f w (err e, v) h b = b

    pub bind-IsBenign :
        {A B : Type 0} (m : M Server A) (f : A → M Server B)
        → IsBenign m
        → ((a : A) → IsBenign (f a))
        → IsBenign (m >>= f)
    bind-IsBenign m f hm hf w = after-Benign f w (m w) hf (hm w)

    caught-Benign :
        {A : Type 0} (a : A) (w : World Server) (r : Result A × World Server)
        → Benign w r.1
        → Benign w (caught a r).1
    caught-Benign a w (ok b, v) h = h
    caught-Benign a w (err e, v) h = h

    pub or_else-IsBenign :
        {A : Type 0} (m : M Server A) (a : A) → IsBenign m → IsBenign (or_else m a)
    or_else-IsBenign m a h w = caught-Benign a w (m w) (h w)

    pub gets-IsBenign : {A : Type 0} (f : World Server → A) → IsBenign (gets f)
    gets-IsBenign f w = (refl, (refl, refl), λ e. e)

    call_on-Benign :
        {A : Type 0} (ls : List Link) (f : Server → A × Server)
        → ((s : Server) → SameKey s (f s).1)
        → (w : World Server) → w.links ≡ ls
        → Benign w (call_on ls f w).1
    call_on-Benign [] f h w e = (refl, h w.server, λ z. z)
    call_on-Benign (up ∷ ls) f h w e = (refl, h w.server, λ z. cc)
    call_on-Benign (refused ∷ ls) f h w e = (refl, (refl, refl), λ z. cc)
    call_on-Benign (reply_lost ∷ ls) f h w e = (refl, h w.server, λ z. cc)

    pub call-IsBenign :
        {A : Type 0} (f : Server → A × Server)
        → ((s : Server) → SameKey s (f s).1)
        → IsBenign (call f)
    call-IsBenign f h w = call_on-Benign w.links f h w refl

  module _ (env : Env Server) (c : Config) where
    abbrev pub joined : Bool → Bool → M Server Bool
    joined local cluster = pure (local || cluster)

    abbrev pub ask_cluster : Bool → M Server Bool
    ask_cluster local = cluster_held env c >>= joined local

    abbrev pub ask_holds : Unit {0} → M Server Bool
    ask_holds _ = local_held env c >>= ask_cluster

  -- Any key but the heartbeat's own.
  module _ (env : Env Server) (laws : RedisLaws env.redis) (c : Config) (served : IsServed c)
      (key : Text) (other : text_eq (promoter_key c.namespace c.node_id) key ≡ false) where
    open env use {redis as r}

    heartbeat_keeps :
        (v : Text) (s : Server)
        → SameKey env.redis key s
            (env.redis.set_px (promoter_key c.namespace c.node_id) v c.heartbeat_ttl_ms s)
    heartbeat_keeps v s =
        let k = promoter_key c.namespace c.node_id in
        (
          laws.get-set_px k key v c.heartbeat_ttl_ms s served.heartbeat ∙ rw other,
          laws.pttl-set_px k key v c.heartbeat_ttl_ms s served.heartbeat ∙ rw other,
        )

    measured-IsBenign : IsBenign r key (measured env c)
    measured-IsBenign w =
        or_else-IsBenign r key (call (λ s. (r.time s, s)) >>= λ t. pure (some (w.now, t.0, t.1)))
          none
          (bind-IsBenign r key (call (λ s. (r.time s, s))) (λ t. pure (some (w.now, t.0, t.1)))
            (call-IsBenign r key (λ s. (r.time s, s)) (λ s. (refl, refl)))
            (λ t v. (refl, (refl, refl), λ e. e)))
          w

    send_beat-IsBenign : (offset : Option (ℕ × ℕ × ℕ)) → IsBenign r key (send_beat env c offset)
    send_beat-IsBenign offset w =
        let text = payload env c offset w.now in
        or_else-IsBenign r key (call (write_beat env c text)) tt
          (call-IsBenign r key (write_beat env c text) (heartbeat_keeps text)) w

    pub beat-keeps : IsBenign r key (beat env c)
    unfolding beat
    beat-keeps =
        bind-IsBenign r key (measured env c) (send_beat env c) measured-IsBenign send_beat-IsBenign

    local_held_same : (w : World Server) → (local_held env c w).1 ≡ w
    unfolding local_held hold_is_expired
    local_held_same w = ground arith

    read_cluster_hold-IsBenign : IsBenign r key (read_cluster_hold env c)
    unfolding read_cluster_hold
    read_cluster_hold-IsBenign =
        or_else-IsBenign r key (call (λ s. (r.get (hold_key c.namespace) s, s))) none
          (call-IsBenign r key (λ s. (r.get (hold_key c.namespace) s, s)) (λ s. (refl, refl)))

    cluster_held-IsBenign : IsBenign r key (cluster_held env c)
    unfolding cluster_held
    cluster_held-IsBenign =
        bind-IsBenign r key (read_cluster_hold env c) (λ text. gets (holds_cluster env c text))
          read_cluster_hold-IsBenign (λ text. gets-IsBenign r key (holds_cluster env c text))

    ask_holds-IsBenign : (u : Unit {0}) → IsBenign r key (ask_holds env c u)
    ask_holds-IsBenign u =
        bind-IsBenign r key (local_held env c) (ask_cluster env c)
          (λ w. rw (local_held_same w) (refl, (refl, refl), λ e. e))
          (λ local.
            bind-IsBenign r key (cluster_held env c) (joined env c local) cluster_held-IsBenign
              (λ cluster w. (refl, (refl, refl), λ e. e)))

    -- The heartbeat and the questions about the hold change no file and leave the key as it was.
    pub asks-keeps : IsBenign r key (asks env c)
    unfolding asks
    asks-keeps = bind-IsBenign r key (beat env c) (ask_holds env c) beat-keeps ask_holds-IsBenign

  module _ (env : Env Server) (laws : RedisLaws env.redis) (c : Config) (served : IsServed c) where
    -- So they leave the lease as it was.
    pub beat-IsBenign : IsBenign env.redis (leader_key c.namespace) (beat env c)
    beat-IsBenign =
        beat-keeps env laws c served _ (promoter_key-ne-leader_key c.namespace c.node_id)

    pub asks-IsBenign : IsBenign env.redis (leader_key c.namespace) (asks env c)
    asks-IsBenign =
        asks-keeps env laws c served _ (promoter_key-ne-leader_key c.namespace c.node_id)
