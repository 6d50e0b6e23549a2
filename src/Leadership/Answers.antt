-- ===== src/Leadership/Answers.antt =====
-- leadership.py: what an answer of `LeadershipMonitor` rests on, also under a hold.
use ha_cluster_state_sync.Prelude.{
  ◌≡◌, ◌≢◌, ◌⊎◌, inl, inr, refl, ◌∙◌, true, false, Option, none, some, [], ◌∷◌, Text, text_eq,
  text_eq_iff, arith, Bool-cases, Option-cases, List, [], ◌∷◌,
}
use ha_cluster_state_sync.Str.{lower}
use ha_cluster_state_sync.Store.{Redis, RedisLaws}
use ha_cluster_state_sync.Lease.Scripts.{HeldFor, lease_script_outcome, renew_only_script_outcome}
use ha_cluster_state_sync.Promoter.World.{Link, up}
use ha_cluster_state_sync.Promoter.Keys.{leader_key, hold_key}
use ha_cluster_state_sync.Hold.Files.{is_held}
use ha_cluster_state_sync.Leadership.Backend.{
  Backend, acquire_leadership, renew_leadership, read_cluster_hold,
}
use ha_cluster_state_sync.Leadership.Monitor.{
  Monitor, Known, always, entity, lease, is_truthy_state, from_entity, async_is_held, from_lease,
  resolve, async_is_leader, entity_says,
}

-- The configured entity exists, in a state that reads as a yes.
abbrev pub SaysYes : (Text → Option Text) → Option Text → Type 0
SaysYes states entity_id =
    (id : Text) × (state : Text) × (entity_id ≡ some id)
    × (states id ≡ some state)
    × (is_truthy_state (lower state) ≡ true)

entity_says-exists :
    (states : Text → Option Text) (entity_id : Option Text)
    → entity_says states entity_id ≡ true
    → SaysYes states entity_id
entity_says-exists states none h = cc
entity_says-exists states (some []) h = cc
entity_says-exists states (some (c ∷ t)) h = elim (Option-cases (states (c ∷ t))) [
  | inl absent ↦ absurd (ground arith)
  | inr (state, there) ↦ (c ∷ t, state, refl, there, ground arith)
]

module _ {Server : Type 0} (redis : Redis Server) (laws : RedisLaws redis) (m : Monitor) where
  abbrev pub key : Text
  key = leader_key m.namespace

  -- The lease is this node's for 30 seconds, and was its own before, or free where `free` says so.
  abbrev pub Won : Type 0 → Backend Server → Backend Server → Type 0
  Won Free b after =
      (b.connected ≡ true)
      × ((Free × (redis.get key b.server ≡ none)) ⊎ (redis.get key b.server ≡ some m.node_id))
      × HeldFor redis laws key m.node_id 30000 after.server

  acquire-Won :
      (b : Backend Server)
      → (acquire_leadership redis m.namespace m.node_id b).0 ≡ true
      → Won (Unit {0}) b (acquire_leadership redis m.namespace m.node_id b).1
  unfolding acquire_leadership
  acquire-Won b h =
      ground (arith, lease_script_outcome redis laws key m.node_id 30000 b.server (omega arith))

  renew-Won :
      (b : Backend Server)
      → (renew_leadership redis m.namespace m.node_id b).0 ≡ true
      → Won ⊥ b (renew_leadership redis m.namespace m.node_id b).1
  unfolding renew_leadership
  renew-Won b h = ground (
    arith,
    lease_script_outcome redis laws key m.node_id 30000 b.server (omega arith),
    renew_only_script_outcome redis laws key m.node_id 30000 b.server,
  )

  renew-refused :
      (b : Backend Server)
      → redis.get key b.server ≢ some m.node_id
      → ((renew_leadership redis m.namespace m.node_id b).0 ≡ false)
        × ((renew_leadership redis m.namespace m.node_id b).1.server ≡ b.server)
  unfolding renew_leadership
  renew-refused b h = ground (
    arith,
    lease_script_outcome redis laws key m.node_id 30000 b.server (omega arith),
    renew_only_script_outcome redis laws key m.node_id 30000 b.server,
  )

  async_is_held-server :
      (b : Backend Server)
      → ((async_is_held redis m b).1.server ≡ b.server)
        × ((async_is_held redis m b).1.connected ≡ b.connected)
  unfolding async_is_held read_cluster_hold
  async_is_held-server b = ground arith

  -- What a yes rests on: the source is `always`; or it is `entity`, and the entity is there in a
  -- state that reads as a yes; or it is `lease`, and the lease is won, from free only without a
  -- hold.
  abbrev pub Justified : Backend Server → Backend Server → Type 0
  Justified b after =
      (m.source ≡ always)
      ⊎ ((m.source ≡ entity) × SaysYes m.states m.entity_id)
      ⊎ ((m.source ≡ lease) × Won ((async_is_held redis m b).0 ≡ false) b after)

  lease-Won :
      (b : Backend Server)
      → (from_lease redis m b).0 ≡ true
      → Won ((async_is_held redis m b).0 ≡ false) b (from_lease redis m b).1
  unfolding from_lease
  lease-Won b h =
      let same = async_is_held-server b in
      elim (Bool-cases (async_is_held redis m b).0) [
        | inl held ↦ ground (arith, renew-Won (async_is_held redis m b).1, same.0, same.1)
        | inr free ↦ ground (arith, acquire-Won (async_is_held redis m b).1, same.0, same.1)
      ]

  -- Whenever a monitor answers that this node leads, one of three things is the case: its source
  -- is `always`; or it is `entity`, and the configured entity exists in a state that reads as a
  -- yes; or it is `lease`, the backend is connected, the lease is now this node's for 30 seconds,
  -- and it was this node's before or, with no hold in force, free.
  pub async_is_leader-Justified :
      (known : Known) (b : Backend Server)
      → (async_is_leader redis m (known, b)).0 ≡ true
      → Justified b (async_is_leader redis m (known, b)).1.1
  unfolding async_is_leader resolve
  async_is_leader-Justified known b h = elim (Bool-cases (text_eq m.source always)) [
    | inl is_always ↦ inl ((text_eq_iff m.source always).0 is_always)
    | inr not_always ↦ elim (Bool-cases (text_eq m.source entity)) [
      | inl is_entity ↦ inr (
          inl (
            (text_eq_iff m.source entity).0 is_entity,
            entity_says-exists m.states m.entity_id (unfold from_entity in ground arith),
          ))
      | inr not_entity ↦ elim (Bool-cases (text_eq m.source lease)) [
        | inl is_lease ↦ inr (
            inr (
              (text_eq_iff m.source lease).0 is_lease,
              rw (not_always, not_entity, is_lease)
                  (lease-Won b (rw (not_always, not_entity, is_lease) at h)),
            ))
        | inr not_lease ↦ absurd (ground arith)
      ]
    ]
  ]

  -- The flag file of this node is there and can be seen, or the hold of the cluster is there and
  -- the command that reads it arrives.
  abbrev pub HoldInForce : Backend Server → Type 0
  HoldInForce b =
      ((m.has_config_dir ≡ true) × (m.disk.stat_refused ≡ false) × (m.disk.hold_file ≢ none))
      ⊎ ((b.connected ≡ true)
          × ((b.links ≡ []) ⊎ ((rest : List Link) × (b.links ≡ up ∷ rest)))
          × (redis.get (hold_key m.namespace) b.server ≢ none))

  in_force-held : (b : Backend Server) → HoldInForce b → (async_is_held redis m b).0 ≡ true
  unfolding async_is_held read_cluster_hold is_held
  in_force-held b h = ground arith

  -- A node under a hold never takes. Where the source is `lease`, the lease is not this node's, and
  -- a hold is in force, by a flag file of this node that can be seen or by the key of the cluster
  -- where the command that reads it arrives, the answer is no and the server is left as it was,
  -- whatever becomes of the other commands.
  pub held-never_takes :
      (known : Known) (b : Backend Server)
      → m.source ≡ lease
      → HoldInForce b
      → redis.get key b.server ≢ some m.node_id
      → ((async_is_leader redis m (known, b)).0 ≡ false)
        × ((async_is_leader redis m (known, b)).1.1.server ≡ b.server)
  unfolding async_is_leader resolve from_lease text_eq
  held-never_takes known b source in_force other =
      let same = async_is_held-server b in
      rw (source, in_force-held b in_force)
        (
          (renew-refused (async_is_held redis m b).1 (rw same.0 other)).0,
          (renew-refused (async_is_held redis m b).1 (rw same.0 other)).1 ∙ same.0,
        )
