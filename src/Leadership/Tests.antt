-- ===== src/Leadership/Tests.antt =====
-- Monitors on a concrete server: node "a", in cluster "home".
use ha_cluster_state_sync.Prelude.{
  ◌≡◌, ◌≢◌, refl, inl, inr, true, false, none, some, [], Text, codes, text_eq, arith,
}
use ha_cluster_state_sync.Store.Mock.{Mock, mock, empty_mock, mock-laws}
use ha_cluster_state_sync.Lease.{lease_script}
use ha_cluster_state_sync.Promoter.Keys.{leader_key, hold_key}
use ha_cluster_state_sync.Hold.Files.{Disk, done, is_held}
use ha_cluster_state_sync.Leadership.Backend.{
  Backend, acquire_leadership, renew_leadership, publish_cluster_hold, read_cluster_hold,
  clear_cluster_hold,
}
use ha_cluster_state_sync.Leadership.Monitor.{
  Monitor, Known, lease, async_is_held, from_lease, resolve, async_is_leader,
}
use ha_cluster_state_sync.Leadership.Answers.{
  Justified, async_is_leader-Justified, held-never_takes,
}
use ha_cluster_state_sync.Leadership.Shared.{publish_cluster_hold-reaches}

abbrev home : Text
home = codes "home"

abbrev empty_disk : Disk
empty_disk = record {
  hold_file = none;
  tmp_file = none;
  stat_refused = false;
  read_refused = false;
  write = done;
  replace_refused = false;
  unlink_refused = false;
}

abbrev monitor : Monitor
monitor = record {
  namespace = home;
  node_id = codes "a";
  source = lease;
  entity_id = none;
  has_config_dir = true;
  states = λ id. none;
  disk = empty_disk;
}

abbrev unknown : Known
unknown = record { last_known = none; announced = [] }

abbrev backend : Backend Mock
backend = record { connected = true; links = []; server = empty_mock }

takes : (async_is_leader mock monitor (unknown, backend)).0 ≡ true
unfolding async_is_leader resolve from_lease async_is_held read_cluster_hold acquire_leadership
    renew_leadership lease_script is_held text_eq leader_key hold_key
takes = refl

async_is_leader-Justified_example :
    Justified mock mock-laws monitor backend (async_is_leader mock monitor (unknown, backend)).1.1
async_is_leader-Justified_example =
    async_is_leader-Justified mock mock-laws monitor unknown backend takes

-- The cluster's hold is raised, and the lease is free.
published : (publish_cluster_hold mock home (codes "origin: b\n") none backend).0 ≡ true
unfolding publish_cluster_hold
published = refl

abbrev held_server : Mock
held_server = mock.set (hold_key home) (codes "origin: b\n") empty_mock

abbrev held_backend : Backend Mock
held_backend = record backend { server = held_server }

present : mock.get (hold_key home) held_server ≢ none
unfolding text_eq hold_key
present e = cc

free : mock.get (leader_key home) held_server ≡ none
unfolding text_eq leader_key hold_key
free = refl

not_own : mock.get (leader_key home) held_server ≢ some (codes "a")
not_own e = absurd (ground (arith, free))

held-never_takes_example :
    ((async_is_leader mock monitor (unknown, held_backend)).0 ≡ false)
    × ((async_is_leader mock monitor (unknown, held_backend)).1.1.server ≡ held_server)
held-never_takes_example =
    held-never_takes mock mock-laws monitor unknown held_backend refl
      (inr (refl, inl refl, present)) not_own

publish_cluster_hold-reaches_example :
    ((read_cluster_hold mock home held_backend).0 ≡ some (codes "origin: b\n"))
    × (mock.get (leader_key home) held_server ≡ mock.get (leader_key home) empty_mock)
unfolding publish_cluster_hold
publish_cluster_hold-reaches_example =
    publish_cluster_hold-reaches mock mock-laws home (codes "origin: b\n") none backend held_backend
      tt published (record { connected = refl; reachable = refl; same = refl })

abbrev cleared_backend : Backend Mock
cleared_backend = record backend { server = mock.del (hold_key home) held_server }

cleared : (clear_cluster_hold mock home held_backend).0 ≡ true
unfolding clear_cluster_hold
cleared = refl
