-- ===== src/Promoter/CommandTests.antt =====
-- The operator's commands on a concrete server, in cluster "home", for node "a".
use ha_cluster_state_sync.Prelude.{
  ◌*◌, ◌≡◌, ◌≢◌, ◌⊎◌, refl, false, true, some, none, [], Text, codes, text_eq, arith, starts_with,
}
use ha_cluster_state_sync.Str.{strip, lstrip, rstrip, is_space, is_break, lower}
use ha_cluster_state_sync.Store.Mock.{mock, mock-laws}
use ha_cluster_state_sync.Promoter.World.{ok}
use ha_cluster_state_sync.Promoter.Keys.{leader_key, hold_key}
use ha_cluster_state_sync.Promoter.State.{read_state}
use ha_cluster_state_sync.Promoter.Commands.{
  set_cluster_hold, clear_cluster_hold, show_cluster_hold, adopt,
}
use ha_cluster_state_sync.Promoter.Adoption.{Observes, Seeds, adopted, adopt-Observes, adopt-Seeds}
use ha_cluster_state_sync.Promoter.Console.{
  IsPlain, status_line, set_cluster_hold-lands, set_cluster_hold-shown,
}
use ha_cluster_state_sync.Promoter.Tests.{second, standby, crash_loop}
use ha_cluster_state_sync.Hold.Format.{hold_body}
use ha_cluster_state_sync.Hold.Lines.{IsWord}

abbrev home : Text
home = codes "home"

abbrev node_a : Text
node_a = codes "a"

abbrev disk : Text
disk = codes "disk"

adopt-Observes_example :
    Observes mock home node_a true standby (adopted mock home node_a true standby)
adopt-Observes_example = adopt-Observes mock home node_a true standby

-- The leader adopts: it ends with 0, and the state file reads MASTER.
leader_adopts :
    ((adopt mock home node_a false crash_loop).0 ≡ ok 0)
    × (read_state (adopt mock home node_a false crash_loop).1 ≡ codes "MASTER")
unfolding adopt read_state text_eq leader_key strip lstrip rstrip is_space
leader_adopts = (refl, refl)

adopt-Seeds_example :
    Seeds mock home node_a false
      (600 * second)
      crash_loop
      (adopted mock home node_a false crash_loop).1
adopt-Seeds_example =
    adopt-Seeds mock home node_a false (600 * second) crash_loop leader_adopts.0 refl (omega arith)
      (omega arith)

node_a-IsWord : IsWord node_a
unfolding lstrip rstrip is_space is_break
node_a-IsWord = record { one_line = (refl, tt); nonempty = ground arith; left = refl; right = refl }

disk-IsPlain : IsPlain disk
unfolding strip lstrip rstrip is_space is_break lower starts_with
disk-IsPlain = record {
  word = record {
    one_line = (refl, (refl, (refl, (refl, tt))));
    nonempty = ground arith;
    left = refl;
    right = refl;
  };
  human = record { no_origin = refl; no_deadline = refl };
  unstructured = refl;
}

set_cluster_hold-lands_example :
    ((((set_cluster_hold mock home node_a disk standby).0 ≡ ok 0)
        × (mock.get (hold_key home) (set_cluster_hold mock home node_a disk standby).1.server
            ≡ some (hold_body disk (some node_a) none)))
      ⊎ (((set_cluster_hold mock home node_a disk standby).0 ≡ ok 1) × (standby.links ≢ [])))
    × ((((clear_cluster_hold mock home standby).0 ≡ ok 0)
          × (mock.get (hold_key home) (clear_cluster_hold mock home standby).1.server ≡ none))
        ⊎ (((clear_cluster_hold mock home standby).0 ≡ ok 1) × (standby.links ≢ [])))
    × (mock.get (leader_key home) (set_cluster_hold mock home node_a disk standby).1.server
        ≡ mock.get (leader_key home) standby.server)
    × (mock.get (leader_key home) (clear_cluster_hold mock home standby).1.server
        ≡ mock.get (leader_key home) standby.server)
set_cluster_hold-lands_example =
    set_cluster_hold-lands mock mock-laws home node_a disk standby node_a-IsWord.nonempty

set_cluster_hold-shown_example :
    (show_cluster_hold mock home (set_cluster_hold mock home node_a disk standby).1).0
    ≡ ok (0, some (status_line node_a disk))
set_cluster_hold-shown_example =
    set_cluster_hold-shown mock mock-laws home disk node_a standby refl disk-IsPlain node_a-IsWord
