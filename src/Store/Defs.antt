-- ===== src/Store/Defs.antt =====
-- The commands of the server, and the laws of keys with a time to live.
use ha_cluster_state_sync.Prelude.{
  ℕ, ◌-◌, ◌<◌, ◌≤◌, ◌≡◌, ◌≢◌, Option, none, some, Text, text_eq, if◌then◌else◌,
}

-- Times to live are in milliseconds, as in `PX`, `PEXPIRE` and `PTTL`. `pttl` is `none` for a key
-- that is absent or never expires. `elapse n` lets the server's clock go on by `n` milliseconds.
pub record Redis (Server : Type 0) : Type 0 where
  pub get : Text → Server → Option Text
  pub set : Text → Text → Server → Server
  pub set_px : Text → Text → ℕ → Server → Server
  pub pexpire : Text → ℕ → Server → Server
  pub del : Text → Server → Server
  pub pttl : Text → Server → Option ℕ
  pub time : Server → ℕ × ℕ
  pub elapse : ℕ → Server → Server

-- What the documentation of the commands says of them, key by key. The server refuses a time to
-- live of zero, so nothing is said of one.
pub record RedisLaws {Server : Type 0} (redis : Redis Server) : Type 0 where
  pub get-set :
      (k j v : Text) (s : Server)
      → redis.get j (redis.set k v s) ≡ (if text_eq k j then some v else redis.get j s)
  pub get-set_px :
      (k j v : Text) (t : ℕ) (s : Server)
      → 0 < t
      → redis.get j (redis.set_px k v t s) ≡ (if text_eq k j then some v else redis.get j s)
  pub pttl-set_px :
      (k j v : Text) (t : ℕ) (s : Server)
      → 0 < t
      → redis.pttl j (redis.set_px k v t s) ≡ (if text_eq k j then some t else redis.pttl j s)
  pub get-pexpire :
      (k j : Text) (t : ℕ) (s : Server) → 0 < t → redis.get j (redis.pexpire k t s) ≡ redis.get j s
  pub pttl-pexpire :
      (k j : Text) (t : ℕ) (s : Server)
      → 0 < t
      → redis.get k s ≢ none
      → redis.pttl j (redis.pexpire k t s) ≡ (if text_eq k j then some t else redis.pttl j s)
  pub get-del :
      (k j : Text) (s : Server)
      → redis.get j (redis.del k s) ≡ (if text_eq k j then none else redis.get j s)
  pub get-elapse :
      (k : Text) (n m : ℕ) (s : Server)
      → redis.pttl k s ≡ some m
      → n < m
      → redis.get k (redis.elapse n s) ≡ redis.get k s
  pub pttl-elapse :
      (k : Text) (n m : ℕ) (s : Server)
      → redis.pttl k s ≡ some m
      → n < m
      → redis.pttl k (redis.elapse n s) ≡ some (m - n)
  pub get-elapse_expired :
      (k : Text) (n m : ℕ) (s : Server)
      → redis.pttl k s ≡ some m
      → m ≤ n
      → redis.get k (redis.elapse n s) ≡ none
