-- ===== src/Lease/Exclusion.antt =====
-- lease.py: who counts on the lease while any nodes run the scripts, and once it has run out.
use ha_cluster_state_sync.Prelude.{
  ℕ, ◌-◌, ◌<◌, ◌≤◌, ◌≡◌, ◌≢◌, ◌⊎◌, inl, inr, Bool, true, false, some, List, [], ◌∷◌, All, Text,
  text_eq, text_eq_iff, text_eq_refl, arith, Bool-cases, ◌∙◌,
}
use native.Mathlib.Decide.{dec_lt}
use ha_cluster_state_sync.Store.{Redis, RedisLaws}
use ha_cluster_state_sync.Lease.Scripts.{
  Granted, lease_script_outcome, renew_only_script_outcome, release_script_outcome,
}
use ha_cluster_state_sync.Lease.Cluster.{
  Event, take, renew, release, foreign, wait, Cluster, told, exec, exec_all, IsProper,
}

module _ {Server : Type 0} (redis : Redis Server) (key : Text) (ttl : Text → ℕ) where
  -- Whoever still counts on the lease holds it on the server, at least as long.
  abbrev pub Backed : Cluster Server → Text → Type 0
  Backed c n =
      (c.belief n ≡ 0)
      ⊎ ((redis.get key c.server ≡ some n)
          × ((p : ℕ) × (redis.pttl key c.server ≡ some p) × (c.belief n ≤ p)))

  pub record IsSound (c : Cluster Server) (n : Text) : Type 0 where
    pub backed : Backed c n
    pub bounded : c.belief n ≤ ttl n

  module _ (laws : RedisLaws redis) (pos : (n : Text) → 0 < ttl n) where
    exec-bounded :
        (e : Event) (c : Cluster Server) (n : Text)
        → IsSound c n
        → (exec redis key ttl e c).belief n ≤ ttl n
    exec-bounded (take node true) c n h = ground (arith, h.bounded, text_eq_iff node n)
    exec-bounded (take node false) c n h = h.bounded
    exec-bounded (renew node true) c n h = ground (arith, h.bounded, text_eq_iff node n)
    exec-bounded (renew node false) c n h = h.bounded
    exec-bounded (release node true) c n h = ground (arith, h.bounded)
    exec-bounded (release node false) c n h = h.bounded
    exec-bounded (foreign k v ms) c n h = h.bounded
    exec-bounded (wait ms) c n h = omega (arith, h.bounded)

    -- After a yes the node holds the key, and nobody else can have been counting on it.
    told_yes-Backed :
        (node : Text) (heard : Bool) (c : Cluster Server) (s : Server) (reply : ℕ) (n : Text)
        → IsSound c n
        → Granted redis laws key node (ttl node) c.server (reply, s)
        → Backed (record { server = s; belief = told redis key ttl node heard reply c.belief }) n
    told_yes-Backed node heard c s reply n h (before, yes_reply, (held, left)) =
        elim (Bool-cases (text_eq node n)) [
          | inl same ↦
              let e : node ≡ n = (text_eq_iff node n).0 same in
              inr (rw e at held, (ttl n, rw e at left, told_bound e))
          | inr other ↦ elim (h.backed) [
            | inl nothing ↦ inl (ground (arith, told_other other))
            | inr (mine, rest) ↦ absurd (ground (arith, text_eq_iff node n))
          ]
        ]
      where
        told_bound : node ≡ n → told redis key ttl node heard reply c.belief n ≤ ttl n
        told_bound e = ground (arith, h.bounded)

        told_other :
            text_eq node n ≡ false → told redis key ttl node heard reply c.belief n ≡ c.belief n
        told_other other = ground arith

    -- A no changes nothing on the server, and the node that hears it stops counting on the lease.
    told_no-Backed :
        (node : Text) (heard : Bool) (c : Cluster Server) (n : Text)
        → IsSound c n
        → Backed (record { server = c.server; belief = told redis key ttl node heard 0 c.belief }) n
    told_no-Backed node heard c n h = elim (h.backed) [
      | inl nothing ↦ inl (ground arith)
      | inr (mine, (p, left, fits)) ↦ inr (mine, (p, left, ground arith))
    ]

    take-Backed :
        (node : Text) (heard : Bool) (c : Cluster Server) (n : Text)
        → IsSound c n
        → Backed (exec redis key ttl (take node heard) c) n
    take-Backed node heard c n h =
        elim (lease_script_outcome redis laws key node (ttl node) c.server (pos node)) [
          | inl yes_outcome ↦ told_yes-Backed node heard c _ _ n h yes_outcome
          | inr (_, _, reply, same) ↦ rw (reply, same) (told_no-Backed node heard c n h)
        ]

    -- A renewal is a take, or does nothing.
    renew-Backed :
        (node : Text) (heard : Bool) (c : Cluster Server) (n : Text)
        → IsSound c n
        → Backed (exec redis key ttl (renew node heard) c) n
    renew-Backed node heard c n h =
        elim (renew_only_script_outcome redis laws key node (ttl node) c.server) [
          | inl (_, same) ↦ rw same (take-Backed node heard c n h)
          | inr (_, same) ↦ rw same (told_no-Backed node heard c n h)
        ]

    -- A node that releases frees its own key only, and when it hears so it counts on nothing; an
    -- unheard release of another node takes nothing from this one.
    release-Backed :
        (node : Text) (heard : Bool) (c : Cluster Server) (n : Text)
        → IsProper redis key ttl n (release node heard)
        → IsSound c n
        → Backed (exec redis key ttl (release node heard) c) n
    release-Backed node heard c n ok h =
        elim (release_script_outcome redis laws key node c.server) [
          | inl (mine, _, free) ↦ elim h.backed [
            | inl nothing ↦ inl (ground (arith, told_zero))
            | inr (held, _) ↦ inl (freed heard ok cc)
          ]
          | inr (_, same) ↦ rw same (told_no-Backed node heard c n h)
        ]
      where
        told_zero : c.belief n ≡ 0 → told redis key ttl node heard 0 c.belief n ≡ 0
        told_zero nothing = ground arith

        freed :
            (heard : Bool)
            → IsProper redis key ttl n (release node heard)
            → node ≡ n
            → told redis key ttl node heard 0 c.belief n ≡ 0
        freed true ok e = ground (arith, text_eq_iff node n)
        freed false ok e = absurd (ok e)

    foreign-Backed :
        (k v : Text) (ms : ℕ) (c : Cluster Server) (n : Text)
        → IsSound c n
        → k ≢ key
        → 0 < ms
        → Backed (exec redis key ttl (foreign k v ms) c) n
    foreign-Backed k v ms c n h ne lt = elim (h.backed) [
      | inl nothing ↦ inl nothing
      | inr (held, (p, left, fits)) ↦ inr (
        ground (arith, laws.get-set_px k key v ms c.server lt, text_eq_iff k key),
        (p, ground (arith, laws.pttl-set_px k key v ms c.server lt, text_eq_iff k key), fits),
      )
    ]

    wait-Backed :
        (ms : ℕ) (c : Cluster Server) (n : Text)
        → IsSound c n
        → Backed (exec redis key ttl (wait ms) c) n
    wait-Backed ms c n h = elim (h.backed) [
      | inl nothing ↦ inl (omega arith)
      | inr (held, (p, left, fits)) ↦ elim (dec_lt ms p) [
        | yes in_time ↦ inr (
          laws.get-elapse key ms p c.server left in_time ∙ held,
          (p - ms, laws.pttl-elapse key ms p c.server left in_time, omega arith),
        )
        | no late ↦ inl (omega arith)
      ]
    ]

    -- Every event that does not go behind the back of a node keeps: while it counts on the lease it
    -- holds it, at least as long.
    pub exec-IsSound :
        (e : Event) (c : Cluster Server) (n : Text)
        → IsProper redis key ttl n e
        → IsSound c n
        → IsSound (exec redis key ttl e c) n
    exec-IsSound e c n ok h = record { backed = kept e ok; bounded = exec-bounded e c n h }
      where
        kept : (e : Event) → IsProper redis key ttl n e → Backed (exec redis key ttl e c) n
        kept (take node heard) ok = take-Backed node heard c n h
        kept (renew node heard) ok = renew-Backed node heard c n h
        kept (release node heard) ok = release-Backed node heard c n ok h
        kept (foreign k v ms) ok = foreign-Backed k v ms c n h ok.0 ok.1
        kept (wait ms) ok = wait-Backed ms c n h

    exec_all-IsSound :
        (es : List Event) (c : Cluster Server) (n : Text)
        → All (IsProper redis key ttl n) es
        → IsSound c n
        → IsSound (exec_all redis key ttl es c) n
    unfolding exec_all
    exec_all-IsSound [] c n ok h = h
    exec_all-IsSound (e ∷ es) c n ok h =
        exec_all-IsSound es (exec redis key ttl e c) n ok.1 (exec-IsSound e c n ok.0 h)

    -- Split-brain is impossible while every node goes by the lease and hears the answers to its own
    -- releases: whatever the server held at the start, when neither node counted on the lease, and
    -- whatever takes, renewals, releases, lost replies, waits and writes to other keys follow, by
    -- any nodes and in any order, two nodes that both still count on the lease are one node. The
    -- exception is a release by one of the two whose reply is lost: the server has freed the key,
    -- and the node goes on. Writes to other keys have a positive time to live.
    pub lease_exclusive :
        (es : List Event) (c : Cluster Server) (a b : Text)
        → All (IsProper redis key ttl a) es
        → All (IsProper redis key ttl b) es
        → c.belief a ≡ 0
        → c.belief b ≡ 0
        → 0 < (exec_all redis key ttl es c).belief a
        → 0 < (exec_all redis key ttl es c).belief b
        → a ≡ b
    lease_exclusive es c a b ok_a ok_b start_a start_b la lb =
        let sound_a =
          exec_all-IsSound es c a ok_a
            (record { backed = inl start_a; bounded = omega (arith, start_a) }) in
        let sound_b =
          exec_all-IsSound es c b ok_b
            (record { backed = inl start_b; bounded = omega (arith, start_b) }) in
        elim sound_a.backed [
          | inl nothing ↦ absurd (omega arith)
          | inr (held_a, _) ↦ elim sound_b.backed [
            | inl nothing ↦ absurd (omega arith)
            | inr (held_b, _) ↦ cc
          ]
        ]

    -- Failover: once a lease that nobody renews has run out, the next node to ask for it holds it
    -- for its whole time to live, and counts on it.
    pub lease_failover :
        (c : Cluster Server) (p ms : ℕ) (node : Text)
        → redis.pttl key c.server ≡ some p
        → p ≤ ms
        → let after = exec_all redis key ttl (wait ms ∷ take node true ∷ []) c in
          (redis.get key after.server ≡ some node)
          × (redis.pttl key after.server ≡ some (ttl node))
          × (after.belief node ≡ ttl node)
    unfolding exec_all
    lease_failover c p ms node left late =
        let s = redis.elapse ms c.server in
        let free = laws.get-elapse_expired key ms p c.server left late in
        elim (lease_script_outcome redis laws key node (ttl node) s (pos node)) [
          | inl (_, reply, (held, whole)) ↦
              (held, whole, rw reply (ground (arith, text_eq_refl node)))
          | inr refusal ↦ absurd (refusal.0 free)
        ]
