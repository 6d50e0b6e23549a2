-- ===== src/Lease/Scripts.antt =====
-- lease.py: LEASE_SCRIPT, FORCE_SCRIPT, RELEASE_SCRIPT, RENEW_ONLY_SCRIPT and `lease_ttl_ms`.
-- A script returns its reply (a number) and the server after it. The server runs it atomically.
use ha_cluster_state_sync.Prelude.{
  ℕ, ◌*◌, ◌<◌, ◌≡◌, ◌≢◌, ◌⊎◌, inl, inr, Bool, not, none, some, Text, text_eq, text_eq_iff,
  text_eq_refl, if◌then◌else◌, ◌==◌, arith, Bool-cases, Option-cases,
}
use ha_cluster_state_sync.Store.{Redis, RedisLaws}

-- Python's `bool` of a number.
abbrev pub truthy : ℕ → Bool
truthy n = not (n == 0)

-- The number of milliseconds; the source renders it in decimal for the wire.
abbrev pub lease_ttl_ms : ℕ → ℕ
lease_ttl_ms ttl_seconds = ttl_seconds * 1000

module _ {Server : Type 0} (redis : Redis Server) where
  -- The key is absent, held by this node, or held by another.
  unfoldable pub lease_script : Text → Text → ℕ → Server → ℕ × Server
  lease_script key node ms s = elim (redis.get key s) [
    | none ↦ (1, redis.set_px key node ms s)
    | some current ↦ if text_eq current node then (1, redis.pexpire key ms s) else (0, s)
  ]

  unfoldable pub force_script : Text → Text → ℕ → Server → ℕ × Server
  force_script key node ms s = (1, redis.set_px key node ms s)

  -- `DEL` of a key that is there answers 1.
  unfoldable pub release_script : Text → Text → Server → ℕ × Server
  release_script key node s = elim (redis.get key s) [
    | none ↦ (0, s)
    | some current ↦ if text_eq current node then (1, redis.del key s) else (0, s)
  ]

  unfoldable pub renew_only_script : Text → Text → ℕ → Server → ℕ × Server
  renew_only_script key node ms s = elim (redis.get key s) [
    | none ↦ (0, s)
    | some current ↦ if text_eq current node then (1, redis.pexpire key ms s) else (0, s)
  ]

  module _ (laws : RedisLaws redis) where
    open laws use {get-set_px, pttl-set_px, get-pexpire, pttl-pexpire, get-del}

    -- Who holds the key, and for how long, after a script that claims or renews it.
    abbrev pub HeldFor : Text → Text → ℕ → Server → Type 0
    HeldFor key node ms s = (redis.get key s ≡ some node) × (redis.pttl key s ≡ some ms)

    set_px-HeldFor :
        (key node : Text) (ms : ℕ) (s : Server)
        → 0 < ms
        → HeldFor key node ms (redis.set_px key node ms s)
    set_px-HeldFor key node ms s pos = (
      ground (arith, get-set_px key key node ms s pos, text_eq_refl key),
      ground (arith, pttl-set_px key key node ms s pos, text_eq_refl key),
    )

    pexpire-HeldFor :
        (key node : Text) (ms : ℕ) (s : Server)
        → 0 < ms
        → redis.get key s ≡ some node
        → HeldFor key node ms (redis.pexpire key ms s)
    pexpire-HeldFor key node ms s pos held = (
      ground (arith, get-pexpire key key ms s pos),
      ground (arith, pttl-pexpire key key ms s pos, text_eq_refl key),
    )

    -- A yes of take-or-renew: the key was absent or this node's own, and the node now holds it for
    -- the whole time to live.
    abbrev pub Granted : Text → Text → ℕ → Server → ℕ × Server → Type 0
    Granted key node ms s (reply, after) =
        ((redis.get key s ≡ none) ⊎ (redis.get key s ≡ some node))
        × (reply ≡ 1)
        × HeldFor key node ms after

    -- A no: the key is another node's, and nothing has changed.
    abbrev pub Refused : Text → Text → Server → ℕ × Server → Type 0
    Refused key node s (reply, after) =
        (redis.get key s ≢ none) × (redis.get key s ≢ some node) × (reply ≡ 0) × (after ≡ s)

    -- Take-or-renew either grants the lease or refuses it, by who holds the key.
    pub lease_script_outcome :
        (key node : Text) (ms : ℕ) (s : Server)
        → 0 < ms
        → Granted key node ms s (lease_script key node ms s)
          ⊎ Refused key node s (lease_script key node ms s)
    unfolding lease_script
    lease_script_outcome key node ms s pos = elim (Option-cases (redis.get key s)) [
      | inl free ↦ inl (inl free, ground arith, ground (arith, set_px-HeldFor key node ms s pos))
      | inr (current, held) ↦ elim (Bool-cases (text_eq current node)) [
        | inl mine ↦ inl (
          inr (ground (arith, text_eq_iff current node)),
          ground arith,
          ground (arith, text_eq_iff current node, pexpire-HeldFor key node ms s pos),
        )
        | inr other ↦
            inr (ground arith, ground (arith, text_eq_iff current node), ground arith, ground arith)
      ]
    ]

    -- The maintenance hold's renewal is take-or-renew on a key that is there, and does nothing on
    -- one that is absent.
    pub renew_only_script_outcome :
        (key node : Text) (ms : ℕ) (s : Server)
        → ((redis.get key s ≢ none)
            × (renew_only_script key node ms s ≡ lease_script key node ms s))
          ⊎ ((redis.get key s ≡ none) × (renew_only_script key node ms s ≡ (0, s)))
    unfolding renew_only_script lease_script
    renew_only_script_outcome key node ms s = elim (Option-cases (redis.get key s)) [
      | inl free ↦ inr (free, ground arith)
      | inr (current, held) ↦ inl (ground arith, ground arith)
    ]

    -- A release never evicts another node: it frees the key of its own holder, and changes nothing
    -- whenever the key is absent or another node's.
    pub release_script_outcome :
        (key node : Text) (s : Server)
        → ((redis.get key s ≡ some node)
            × ((release_script key node s).0 ≡ 1)
            × (redis.get key (release_script key node s).1 ≡ none))
          ⊎ ((redis.get key s ≢ some node) × (release_script key node s ≡ (0, s)))
    unfolding release_script
    release_script_outcome key node s = elim (Option-cases (redis.get key s)) [
      | inl free ↦ inr (ground arith, ground arith)
      | inr (current, held) ↦ elim (Bool-cases (text_eq current node)) [
        | inl mine ↦ inl (
          ground (arith, text_eq_iff current node),
          ground arith,
          ground (arith, get-del key key s, text_eq_refl key),
        )
        | inr other ↦ inr (ground (arith, text_eq_iff current node), ground arith)
      ]
    ]

    -- After a forced claim the forcing node holds the key, whoever held it, and every other node's
    -- next renewal or take is refused.
    pub force_script-converges :
        (key node other : Text) (ms ms' : ℕ) (s : Server)
        → 0 < ms
        → node ≢ other
        → let after = (force_script key node ms s).1 in
          HeldFor key node ms after
          × ((lease_script key other ms' after).0 ≡ 0)
          × ((renew_only_script key other ms' after).0 ≡ 0)
    unfolding force_script lease_script renew_only_script
    force_script-converges key node other ms ms' s pos ne =
        let held = set_px-HeldFor key node ms s pos in
        (
          held,
          ground (arith, held.0, text_eq_iff node other),
          ground (arith, held.0, text_eq_iff node other),
        )
