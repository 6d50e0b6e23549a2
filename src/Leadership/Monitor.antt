-- ===== src/Leadership/Monitor.antt =====
-- custom_components/cluster_state_sync/leadership.py, `LeadershipMonitor`.
use ha_cluster_state_sync.Prelude.{
  Bool, true, false, not, ◌&&◌, ◌||◌, Option, none, some, List, [], ◌∷◌, Text, codes, text_eq,
  if◌then◌else◌,
}
use ha_cluster_state_sync.Str.{lower}
use ha_cluster_state_sync.Store.{Redis}
use ha_cluster_state_sync.Hold.Files.{Disk, is_held}
use ha_cluster_state_sync.Leadership.Backend.{
  Backend, acquire_leadership, renew_leadership, read_cluster_hold,
}

abbrev pub always : Text
always = codes "always"

abbrev pub entity : Text
entity = codes "entity"

abbrev pub lease : Text
lease = codes "lease"

-- What a monitor is built with, and where it looks: `states` is `hass.states.get(…).state`, `disk`
-- the configuration directory.
pub record Monitor : Type 0 where
  pub namespace : Text
  pub node_id : Text
  pub source : Text
  pub entity_id : Option Text
  pub has_config_dir : Bool
  pub states : Text → Option Text
  pub disk : Disk

-- `_last_known`, and the changes that were logged, the latest first.
pub record Known : Type 0 where
  pub last_known : Option Bool
  pub announced : List Bool

unfoldable pub is_truthy_state : Text → Bool
is_truthy_state t =
    text_eq t (codes "on")
    || text_eq t (codes "true")
    || text_eq t (codes "yes")
    || text_eq t (codes "master")
    || text_eq t (codes "leader")
    || text_eq t (codes "active")

abbrev pub state_says : Option Text → Bool
state_says none = false
state_says (some state) = is_truthy_state (lower state)

abbrev pub entity_says : (Text → Option Text) → Option Text → Bool
entity_says states none = false
entity_says states (some []) = false
entity_says states (some (c ∷ t)) = state_says (states (c ∷ t))

unfoldable pub from_entity : Monitor → Bool
unfolding is_truthy_state
from_entity m = entity_says m.states m.entity_id

abbrev pub is_some : Option Text → Bool
is_some none = false
is_some (some t) = true

abbrev pub is_new : Bool → Option Bool → Bool
is_new b none = true
is_new true (some c) = not c
is_new false (some c) = c

module _ {Server : Type 0} (redis : Redis Server) (m : Monitor) where
  unfoldable pub async_is_held : Backend Server → Bool × Backend Server
  unfolding is_held read_cluster_hold
  async_is_held b =
      if m.has_config_dir && is_held m.disk
      then (true, b)
      else let (text, after) = read_cluster_hold redis m.namespace b in (is_some text, after)

  unfoldable pub from_lease : Backend Server → Bool × Backend Server
  unfolding async_is_held renew_leadership acquire_leadership
  from_lease b =
      let (held, after) = async_is_held b in
      if held
      then renew_leadership redis m.namespace m.node_id after
      else acquire_leadership redis m.namespace m.node_id after

  unfoldable pub resolve : Backend Server → Bool × Backend Server
  unfolding from_entity from_lease
  resolve b =
      if text_eq m.source always
      then (true, b)
      else if text_eq m.source entity
      then (from_entity m, b)
      else if text_eq m.source lease
      then from_lease b
      else (false, b)

  abbrev noted : Bool → Known → Known
  noted answer known =
      if is_new answer known.last_known
      then record { last_known = some answer; announced = answer ∷ known.announced }
      else known

  unfoldable pub async_is_leader : Known × Backend Server → Bool × (Known × Backend Server)
  unfolding resolve
  async_is_leader (known, b) =
      let (answer, after) = resolve b in (answer, (noted answer known, after))
