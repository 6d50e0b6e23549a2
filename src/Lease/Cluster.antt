-- ===== src/Lease/Cluster.antt =====
-- Any number of nodes that run the lease scripts in any order, while time passes and replies get
-- lost. The source keeps no such number: `belief` is how much longer (in milliseconds) a node counts
-- on the lease, by the replies that have reached it.
use ha_cluster_state_sync.Prelude.{
  ℕ, ◌-◌, ◌<◌, ◌≢◌, Bool, true, false, List, [], ◌∷◌, Text, text_eq, if◌then◌else◌,
}
use ha_cluster_state_sync.Store.{Redis}
use ha_cluster_state_sync.Lease.Scripts.{truthy, lease_script, release_script, renew_only_script}

-- What happens next. `heard` says whether the reply reached the node. `foreign` is a write to
-- another key: a heartbeat, a hold, a snapshot.
pub data Event : Type 0 where
  take : (node : Text) → (heard : Bool) → Event
  renew : (node : Text) → (heard : Bool) → Event
  release : (node : Text) → (heard : Bool) → Event
  foreign : (key value : Text) → (ms : ℕ) → Event
  wait : (ms : ℕ) → Event

pub record Cluster (Server : Type 0) : Type 0 where
  pub server : Server
  pub belief : Text → ℕ

-- Each node has a time to live of its own; all use one key.
module _ {Server : Type 0} (redis : Redis Server) (key : Text) (ttl : Text → ℕ) where
  -- A node that hears yes counts on its own time to live from now on, one that hears no on
  -- nothing, and one that hears nothing keeps what it had. So does a node whose release goes
  -- unanswered: the call raises, and the promoter stays MASTER.
  abbrev pub told : Text → Bool → ℕ → (Text → ℕ) → Text → ℕ
  told node false reply belief n = belief n
  told node true reply belief n =
      if text_eq node n then (if truthy reply then ttl node else 0) else belief n

  abbrev pub exec : Event → Cluster Server → Cluster Server
  exec (take node heard) c =
      let (reply, s) = lease_script redis key node (ttl node) c.server in
      record { server = s; belief = told node heard reply c.belief }
  exec (renew node heard) c =
      let (reply, s) = renew_only_script redis key node (ttl node) c.server in
      record { server = s; belief = told node heard reply c.belief }
  exec (release node heard) c = record {
    server = (release_script redis key node c.server).1;
    belief = told node heard 0 c.belief;
  }
  exec (foreign k v ms) c = record c { server = redis.set_px k v ms c.server }
  exec (wait ms) c = record { server = redis.elapse ms c.server; belief = λ n. c.belief n - ms }

  unfoldable pub exec_all : List Event → Cluster Server → Cluster Server
  exec_all [] c = c
  exec_all (e ∷ es) c = exec_all es (exec e c)

  -- What does not go behind the back of node `n`: other writers stay off the lease's key and give
  -- their keys a positive time to live, and no reply to a release of `n` itself is lost.
  abbrev pub IsProper : Text → Event → Type 0
  IsProper n (foreign k v ms) = (k ≢ key) × (0 < ms)
  IsProper n (release node false) = node ≢ n
  IsProper n _ = Unit
