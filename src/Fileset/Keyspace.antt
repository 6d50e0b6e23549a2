-- ===== src/Fileset/Keyspace.antt =====
-- The server as the fileset uses it, a parameter: keys that never expire, and SCAN with a pattern of
-- a text and a star. `Fileset/Mock.antt` is one server.
use ha_cluster_state_sync.Prelude.{
  ◌≡◌, ◌≢◌, true, Option, none, some, List, Text, text_eq, starts_with, if◌then◌else◌,
}
use ha_cluster_state_sync.Dict.{contains}

-- `scan prefix` is every key that matches `prefix*`. The text before the star has no character that a
-- pattern reads as its own.
pub record Keyspace (Server : Type 0) : Type 0 where
  pub get : Text → Server → Option Text
  pub set : Text → Text → Server → Server
  pub del : Text → Server → Server
  pub scan : (prefix : Text) → Server → List Text

pub record KeyspaceLaws {Server : Type 0} (kv : Keyspace Server) : Type 0 where
  pub get-set :
      (k j v : Text) (s : Server)
      → kv.get j (kv.set k v s) ≡ (if text_eq k j then some v else kv.get j s)
  pub get-del :
      (k j : Text) (s : Server) → kv.get j (kv.del k s) ≡ (if text_eq k j then none else kv.get j s)
  pub scan-sound :
      (prefix k : Text) (s : Server)
      → contains k (kv.scan prefix s) ≡ true
      → starts_with prefix k ≡ true
  pub scan-complete :
      (prefix k : Text) (s : Server)
      → starts_with prefix k ≡ true
      → kv.get k s ≢ none
      → contains k (kv.scan prefix s) ≡ true
