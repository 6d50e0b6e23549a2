-- ===== src/Lease/Tests.antt =====
-- The lease on a concrete server: two nodes, "a" and "b".
use ha_cluster_state_sync.Prelude.{
  ℕ, ◌≡◌, ◌≢◌, ◌⊎◌, true, false, none, some, refl, List, [], ◌∷◌, codes, Text, text_eq, arith,
}
use ha_cluster_state_sync.Store.Mock.{Mock, mock, empty_mock, mock-laws}
use ha_cluster_state_sync.Lease.Scripts.{
  lease_script, force_script, release_script, renew_only_script, Granted, Refused, HeldFor,
  lease_script_outcome, renew_only_script_outcome, release_script_outcome, force_script-converges,
}
use ha_cluster_state_sync.Lease.Exclusion.{lease_exclusive, lease_failover}
use ha_cluster_state_sync.Lease.Cluster.{
  Event, take, renew, release, foreign, wait, Cluster, exec_all,
}

abbrev leader : Text
leader = codes "leader"

abbrev node_a : Text
node_a = codes "a"

abbrev node_b : Text
node_b = codes "b"

-- The server after node "a" took the lease.
abbrev taken : Mock
taken = mock.set_px leader node_a 30000 empty_mock

lease_script_outcome_example :
    Granted mock mock-laws leader node_b 30000 taken (lease_script mock leader node_b 30000 taken)
    ⊎ Refused mock mock-laws leader node_b taken (lease_script mock leader node_b 30000 taken)
lease_script_outcome_example =
    lease_script_outcome mock mock-laws leader node_b 30000 taken (omega arith)

take_refused : lease_script mock leader node_b 30000 taken ≡ (0, taken)
unfolding lease_script text_eq
take_refused = refl

renew_only_script_outcome_example :
    ((mock.get leader taken ≢ none)
      × (renew_only_script mock leader node_a 30000 taken
          ≡ lease_script mock leader node_a 30000 taken))
    ⊎ ((mock.get leader taken ≡ none)
        × (renew_only_script mock leader node_a 30000 taken ≡ (0, taken)))
renew_only_script_outcome_example =
    renew_only_script_outcome mock mock-laws leader node_a 30000 taken

release_script_outcome_example :
    ((mock.get leader taken ≡ some node_a)
      × ((release_script mock leader node_a taken).0 ≡ 1)
      × (mock.get leader (release_script mock leader node_a taken).1 ≡ none))
    ⊎ ((mock.get leader taken ≢ some node_a)
        × (release_script mock leader node_a taken ≡ (0, taken)))
release_script_outcome_example = release_script_outcome mock mock-laws leader node_a taken

force_script-converges_example :
    let after = (force_script mock leader node_b 30000 taken).1 in
    HeldFor mock mock-laws leader node_b 30000 after
    × ((lease_script mock leader node_a 30000 after).0 ≡ 0)
    × ((renew_only_script mock leader node_a 30000 after).0 ≡ 0)
force_script-converges_example =
    force_script-converges mock mock-laws leader node_b node_a 30000 30000 taken (omega arith)
      (ground arith)

-- "a" takes, both go on, a reply of "b" gets lost, "a" releases, "b" takes.
abbrev history : List Event
history =
    take node_a true
    ∷ take node_b true
    ∷ wait 20000
    ∷ renew node_a true
    ∷ foreign (codes "promoters:b") (codes "{}") 60000
    ∷ wait 20000
    ∷ take node_b false
    ∷ release node_a true
    ∷ take node_b true
    ∷ wait 5000
    ∷ []

abbrev ttl : Text → ℕ
ttl _ = 30000

abbrev start : Cluster Mock
start = record { server = empty_mock; belief = λ _. 0 }

history_ends_with_b : (exec_all mock leader ttl history start).belief node_b ≡ 25000
unfolding exec_all lease_script release_script renew_only_script text_eq
history_ends_with_b = refl

lease_exclusive_example : node_b ≡ node_b
lease_exclusive_example =
    lease_exclusive mock leader ttl mock-laws (λ _. omega arith) history start node_b node_b
      (tt, (tt, (tt, (tt, ((ground arith, omega arith), (tt, (tt, (tt, (tt, (tt, tt))))))))))
      (tt, (tt, (tt, (tt, ((ground arith, omega arith), (tt, (tt, (tt, (tt, (tt, tt)))))))))) refl
      refl (omega (arith, history_ends_with_b)) (omega (arith, history_ends_with_b))

-- The exception: the reply to the release of "a" is lost, and "b" takes the free key.
abbrev lost_release : List Event
lost_release = take node_a true ∷ release node_a false ∷ take node_b true ∷ []

lost_release_counts_twice :
    let after = exec_all mock leader ttl lost_release start in
    (after.belief node_a ≡ 30000) × (after.belief node_b ≡ 30000)
unfolding exec_all lease_script release_script text_eq
lost_release_counts_twice = (refl, refl)

-- "a" stopped renewing, and 30 seconds have passed.
lease_failover_example :
    let after =
      exec_all mock leader ttl
        (wait 30000 ∷ take node_b true ∷ [])
        (record { server = taken; belief = λ _. 0 }) in
    (mock.get leader after.server ≡ some node_b)
    × (mock.pttl leader after.server ≡ some 30000)
    × (after.belief node_b ≡ 30000)
unfolding text_eq
lease_failover_example =
    lease_failover mock leader ttl mock-laws (λ _. omega arith)
      (record { server = taken; belief = λ _. 0 }) 30000 30000 node_b refl (omega arith)
