-- ===== src/Leadership/Shared.antt =====
-- backend.py: the cluster-wide hold as one node publishes it and another reads it.
use ha_cluster_state_sync.Prelude.{
  ℕ, ◌*◌, ◌<◌, ◌≡◌, ◌∙◌, true, false, Option, none, some, [], Text, arith, text_eq, text_eq_refl,
}
use ha_cluster_state_sync.Store.{Redis, RedisLaws}
use ha_cluster_state_sync.Promoter.Keys.{leader_key, hold_key, hold_key-ne-leader_key}
use ha_cluster_state_sync.Leadership.Backend.{
  Backend, set_for, publish_cluster_hold, read_cluster_hold, clear_cluster_hold,
}

module _ {Server : Type 0} (redis : Redis Server) (laws : RedisLaws redis) (namespace : Text) where
  -- The server refuses a time to live of zero.
  abbrev pub IsLasting : Option ℕ → Type 0
  IsLasting none = Unit
  IsLasting (some ttl_seconds) = 0 < ttl_seconds

  set_for-get :
      (key j text : Text) (ttl : Option ℕ) (s : Server)
      → IsLasting ttl
      → (text_eq key key ≡ true
          → redis.get key (set_for redis namespace key text ttl s).1 ≡ some text)
        × (text_eq key j ≡ false
            → redis.get j (set_for redis namespace key text ttl s).1 ≡ redis.get j s)
  set_for-get key j text none s h =
      (ground (arith, laws.get-set key key text s), ground (arith, laws.get-set key j text s))
  set_for-get key j text (some t) s h =
      let pos : 0 < t * 1000 = omega arith in
      (
        ground (arith, laws.get-set_px key key text (t * 1000) s pos),
        ground (arith, laws.get-set_px key j text (t * 1000) s pos),
      )

  -- A node that can ask: connected, and its commands arrive.
  pub record Sees (other : Backend Server) (server : Server) : Type 0 where
    pub connected : other.connected ≡ true
    pub reachable : other.links ≡ []
    pub same : other.server ≡ server

  read-Sees :
      (other : Backend Server) (server : Server)
      → Sees other server
      → (read_cluster_hold redis namespace other).0 ≡ redis.get (hold_key namespace) server
  unfolding read_cluster_hold
  read-Sees other server h =
      let c = h.connected in let r = h.reachable in let s = h.same in ground arith

  -- Once a node has been told that its hold is published, every node that can ask reads its text,
  -- and the lease is as it was. A time to live, if given, is not zero, and the server's clock stands
  -- still in between.
  pub publish_cluster_hold-reaches :
      (text : Text) (ttl : Option ℕ) (b other : Backend Server)
      → IsLasting ttl
      → (publish_cluster_hold redis namespace text ttl b).0 ≡ true
      → Sees other (publish_cluster_hold redis namespace text ttl b).1.server
      → ((read_cluster_hold redis namespace other).0 ≡ some text)
        × (redis.get (leader_key namespace) other.server
            ≡ redis.get (leader_key namespace) b.server)
  unfolding publish_cluster_hold
  publish_cluster_hold-reaches text ttl b other lasting told seen =
      let hit = set_for-get (hold_key namespace) (leader_key namespace) text ttl b.server lasting in
      let same = seen.same in
      (
        read-Sees other _ seen ∙ ground (arith, hit.0 (text_eq_refl (hold_key namespace))),
        ground (arith, hit.1 (hold_key-ne-leader_key namespace)),
      )

  -- Once a node has been told that the hold is cleared, every node that can ask reads none, and the
  -- lease is as it was.
  pub clear_cluster_hold-reaches :
      (b other : Backend Server)
      → (clear_cluster_hold redis namespace b).0 ≡ true
      → Sees other (clear_cluster_hold redis namespace b).1.server
      → ((read_cluster_hold redis namespace other).0 ≡ none)
        × (redis.get (leader_key namespace) other.server
            ≡ redis.get (leader_key namespace) b.server)
  unfolding clear_cluster_hold
  clear_cluster_hold-reaches b other told seen =
      let same = seen.same in
      let deleted = laws.get-del (hold_key namespace) (hold_key namespace) b.server in
      let apart = laws.get-del (hold_key namespace) (leader_key namespace) b.server in
      (
        read-Sees other _ seen ∙ ground (arith, deleted, text_eq_refl (hold_key namespace)),
        ground (arith, apart, hold_key-ne-leader_key namespace),
      )
