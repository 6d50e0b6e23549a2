-- ===== src/Leadership/Backend.antt =====
-- custom_components/cluster_state_sync/backend.py, `RedisBackend`: `acquire_leadership`,
-- `renew_leadership`, `release_leadership`, `publish_cluster_hold`, `read_cluster_hold`,
-- `clear_cluster_hold`. The keys are those of const.py, which the promoter mirrors.
use ha_cluster_state_sync.Prelude.{
  ℕ, ◌*◌, Bool, true, false, Option, none, some, List, [], ◌∷◌, Text, if◌then◌else◌,
}
use ha_cluster_state_sync.Store.{Redis}
use ha_cluster_state_sync.Lease.{
  truthy, lease_ttl_ms, lease_script, renew_only_script, release_script,
}
use ha_cluster_state_sync.Promoter.World.{Link, up, refused, reply_lost}
use ha_cluster_state_sync.Promoter.Keys.{leader_key, hold_key}

-- LEASE_TTL_SECONDS
abbrev pub lease_ttl_seconds : ℕ
lease_ttl_seconds = 30

-- `connected`: `_client` is not None. Each command meets one entry of `links`.
pub record Backend (Server : Type 0) : Type 0 where
  pub connected : Bool
  pub links : List Link
  pub server : Server

module _ {Server : Type 0} where
  -- One command in a `try` that answers `failed` for any exception.
  abbrev pub over :
      {A B : Type 0}
      → Link
      → B
      → (A → B)
      → (Server → A × Server)
      → Backend Server
      → B × Backend Server
  over up failed answer f b = let (a, s) = f b.server in (answer a, record b { server = s })
  over refused failed answer f b = (failed, b)
  over reply_lost failed answer f b = (failed, record b { server = (f b.server).1 })

  abbrev pub sent :
      {A B : Type 0}
      → List Link
      → B
      → (A → B)
      → (Server → A × Server)
      → Backend Server
      → B × Backend Server
  sent [] failed answer f b = over up failed answer f b
  sent (l ∷ ls) failed answer f b = over l failed answer f (record b { links = ls })

  abbrev pub attempt :
      {A B : Type 0} → B → (A → B) → (Server → A × Server) → Backend Server → B × Backend Server
  attempt failed answer f b = if b.connected then sent b.links failed answer f b else (failed, b)

  module _ (redis : Redis Server) (namespace : Text) where
    unfoldable pub acquire_leadership : Text → Backend Server → Bool × Backend Server
    unfolding lease_script leader_key
    acquire_leadership node_id =
        attempt false truthy
          (lease_script redis (leader_key namespace) node_id (lease_ttl_ms lease_ttl_seconds))

    unfoldable pub renew_leadership : Text → Backend Server → Bool × Backend Server
    unfolding renew_only_script leader_key
    renew_leadership node_id =
        attempt false truthy
          (renew_only_script redis (leader_key namespace) node_id (lease_ttl_ms lease_ttl_seconds))

    unfoldable pub release_leadership : Text → Backend Server → Unit {0} × Backend Server
    unfolding release_script leader_key
    release_leadership node_id =
        attempt {A = ℕ} tt (λ n. tt) (release_script redis (leader_key namespace) node_id)

    abbrev pub set_for : Text → Text → Option ℕ → Server → Unit {0} × Server
    set_for key text none s = (tt, redis.set key text s)
    set_for key text (some ttl_seconds) s = (tt, redis.set_px key text (ttl_seconds * 1000) s)

    unfoldable pub publish_cluster_hold : Text → Option ℕ → Backend Server → Bool × Backend Server
    unfolding hold_key
    publish_cluster_hold text ttl_seconds =
        attempt false (λ n. true) (set_for (hold_key namespace) text ttl_seconds)

    unfoldable pub read_cluster_hold : Backend Server → Option Text × Backend Server
    unfolding hold_key
    read_cluster_hold = attempt none (λ text. text) (λ s. (redis.get (hold_key namespace) s, s))

    unfoldable pub clear_cluster_hold : Backend Server → Bool × Backend Server
    unfolding hold_key
    clear_cluster_hold =
        attempt {A = Unit {0}} false (λ n. true) (λ s. (tt, redis.del (hold_key namespace) s))
