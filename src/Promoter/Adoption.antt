-- ===== src/Promoter/Adoption.antt =====
-- cluster_promoter.py: `adopt`, what it leaves on the server and in the files.
use ha_cluster_state_sync.Prelude.{
  ℕ, ◌≤◌, ◌≡◌, ◌≢◌, ◌⊎◌, inl, inr, refl, ◌∙◌, ap, Bool, true, false, Option, none, some, List, [],
  ◌∷◌, ◌++◌, Text, codes, text_eq, text_eq_iff, arith, ◌||◌, Bool-cases, Option-cases,
  if◌then◌else◌,
}
use ha_cluster_state_sync.Str.{strip, lstrip, rstrip, is_space}
use ha_cluster_state_sync.Store.{Redis}
use ha_cluster_state_sync.Promoter.World.{
  World, Link, up, refused, reply_lost, File, utf8, Role, master, backup, Result, ok, err, Failure,
}
use ha_cluster_state_sync.Promoter.Keys.{leader_key}
use ha_cluster_state_sync.Promoter.State.{role_text, read_state, recently_touched, touched_at}
use ha_cluster_state_sync.Promoter.Commands.{
  adopt, adopt_backdate, is_own, exit_code, write_state, backdate, clear_holddown, record_role,
}
use ha_cluster_state_sync.Promoter.Monad.{M, call_on, after, pure, ◌>>◌}

module _ {Server : Type 0} (redis : Redis Server) (namespace node_id : Text)
    (utime_refused : Bool) where
  abbrev pub adopted : World Server → Result ℕ × World Server
  adopted w = adopt redis namespace node_id utime_refused w

  -- The role that the lease gives to this node.
  abbrev pub Has : Role → World Server → Type 0
  Has master w = redis.get (leader_key namespace) w.server ≡ some node_id
  Has backup w = redis.get (leader_key namespace) w.server ≢ some node_id

  abbrev pub state_of : Role → ℕ → File
  state_of role mtime = record { content = utf8 (role_text role ++ codes "\n"); mtime = mtime }

  given :
      (w : World Server)
      → (role : Role) × Has role w
        × ((if is_own redis namespace node_id (redis.get (leader_key namespace) w.server)
              then master
              else backup)
            ≡ role)
  given w = elim (Option-cases (redis.get (leader_key namespace) w.server)) [
    | inl free ↦ (backup, ground arith, ground arith)
    | inr (holder, held) ↦ elim (Bool-cases (text_eq holder node_id)) [
      | inl own ↦ (master, ground (arith, text_eq_iff holder node_id), ground arith)
      | inr other ↦ (backup, ground (arith, text_eq_iff holder node_id), ground arith)
    ]
  ]

  abbrev look : Server → Option Text × Server
  look s = (redis.get (leader_key namespace) s, s)

  -- The look at the server comes back or fails, and changes the links only.
  looked :
      (links : List Link) (w : World Server)
      → (rest : List Link) × ((call_on links look w
            ≡ (ok (redis.get (leader_key namespace) w.server), record w { links = rest }))
          ⊎ (call_on links look w ≡ (err Failure.valkey_error, record w { links = rest })))
  looked [] w = (w.links, inl refl)
  looked (up ∷ links) w = (links, inl refl)
  looked (refused ∷ links) w = (links, inr refl)
  looked (reply_lost ∷ links) w = (links, inr refl)

  -- The files after the look.
  abbrev files : Role → M Server ℕ
  files role = do
    write_state redis namespace role
    backdate redis namespace utime_refused
    clear_holddown redis namespace
    pure 0

  abbrev pub seeded : Role → World Server → Result ℕ × World Server
  seeded role w = exit_code redis namespace (files role w)

  abbrev reply : Result (Option Text) × World Server → Result ℕ × World Server
  reply r = exit_code redis namespace (after (record_role redis namespace node_id utime_refused) r)

  adopted-cases :
      (w : World Server)
      → (rest : List Link) × (((role : Role) × Has role w
            × (adopted w ≡ seeded role (record w { links = rest })))
          ⊎ (adopted w ≡ (ok 1, record w { links = rest })))
  unfolding adopt
  adopted-cases w =
      let (rest, came) = looked w.links w in
      let (role, has, chosen) = given w in
      (
        rest,
        elim came [
          | inl back ↦ inl (
            role,
            has,
            ap reply back ∙ ap (λ (r : Role). seeded r (record w { links = rest })) chosen,
          )
          | inr lost ↦ inr (ap reply lost)
        ],
      )

  -- What is observed of an outcome for a node that has the role.
  abbrev pub Observes : World Server → Result ℕ × World Server → Type 0
  Observes w (rc, after) =
      (after.server ≡ w.server)
      × ((rc ≡ ok 0)
          ⊎ ((rc ≡ ok 1)
              × (after.holddown ≡ w.holddown)
              × ((after.state_file ≡ w.state_file)
                  ⊎ ((role : Role) × Has role w
                      × (after.state_file ≡ some (state_of role w.now))))))

  seeded-Observes :
      (role : Role) (w : World Server) (rest : List Link)
      → Has role w
      → Observes w (seeded role (record w { links = rest }))
  seeded-Observes role w rest has =
      elim (Bool-cases (w.refusals.make_state_dir || w.refusals.write_state)) [
        | inl unwritten ↦ rw unwritten (refl, inr (refl, refl, inl refl))
        | inr written ↦ elim (Bool-cases utime_refused) [
          | inl fresh ↦ rw (written, fresh) (refl, inr (refl, refl, inr (role, has, refl)))
          | inr old ↦ (ground arith, inl (ground arith))
        ]
      ]

  -- Adopting only looks at the server, and always comes to an exit code, 0 or 1. Where that is 1,
  -- the hold-down is as it was, and the state file is as it was or was just written with the role
  -- that the lease gives: MASTER only where this node holds it.
  pub adopt-Observes : (w : World Server) → Observes w (adopted w)
  adopt-Observes w =
      let (rest, came) = adopted-cases w in
      elim came [
        | inl (role, has, e) ↦ rw e (seeded-Observes role w rest has)
        | inr e ↦ rw e (refl, inr (refl, refl, inl refl))
      ]

  strip-role : (role : Role) → strip (role_text role ++ codes "\n") ≡ role_text role
  unfolding strip lstrip rstrip is_space
  strip-role master = refl
  strip-role backup = refl

  abbrev pub Seeds : ℕ → World Server → World Server → Type 0
  Seeds window w after =
      ((role : Role) × Has role w × (read_state after ≡ role_text role))
      × (recently_touched (touched_at after.state_file) window after ≡ false)
      × ((after.holddown ≡ none) ⊎ (w.refusals.unlink_holddown ≡ true))

  seeded-Seeds :
      (role : Role) (window : ℕ) (w : World Server) (rest : List Link)
      → Has role w
      → (seeded role (record w { links = rest })).0 ≡ ok 0
      → w.refusals.read_state ≡ false
      → window ≤ adopt_backdate
      → adopt_backdate ≤ w.now
      → Seeds window w (seeded role (record w { links = rest })).1
  unfolding read_state recently_touched
  seeded-Seeds role window w rest has done readable short late =
      ((role, has, ground (arith, strip-role role)), ground arith, ground arith)

  -- After an adoption that ends with 0 the next tick sees no change and no window that was not
  -- earned. The state file reads MASTER where this node holds the lease and BACKUP where not; it
  -- is not recent for any window of up to a day; and the hold-down is gone, unless the operating
  -- system refuses to remove it. The clock is past its first day, and the state file can be read.
  pub adopt-Seeds :
      (window : ℕ) (w : World Server)
      → (adopted w).0 ≡ ok 0
      → w.refusals.read_state ≡ false
      → window ≤ adopt_backdate
      → adopt_backdate ≤ w.now
      → Seeds window w (adopted w).1
  adopt-Seeds window w done readable short late =
      let (rest, came) = adopted-cases w in
      elim came [
        | inl (role, has, e) ↦
            rw e (seeded-Seeds role window w rest has (rw e at done) readable short late)
        | inr e ↦ absurd (ground (arith, e))
      ]
