-- ===== src/Identity/Swap.antt =====
-- fileset_identity.py: `capture`, the swap and `restore` in their order, and every end of `restore`.
use ha_cluster_state_sync.Prelude.{
  and_false, ℕ, ◌≤◌, ◌<◌, ◌≡◌, refl, Bool, true, false, not, ◌&&◌, some, List, [], ◌∷◌, ◌++◌, Text,
  length, ltb, arith, Bool-cases, inl, inr, ap, append-nil,
}
use ha_cluster_state_sync.Identity.{
  Entry, Payload, StoreFile, absent, unreadable, malformed, store, IdentityFile, broken, captured,
  Scratch, no_scratch, Refusals, Disk, Exit, exit_ok, exit_failed, exit_no_local_identity,
  own_entries, other_entries, rehomed, is_empty, graft_entries, capture, restore, put_back,
  write_store, write_private, owner_only,
}
use ha_cluster_state_sync.Identity.Kept.{
  rehomed-AreOwn, own_entries-AreOwn, own_entries-graft, other_entries-graft, IsKept,
  rehomed-IsKept,
}

-- No write fails.
abbrev pub none_refused : Refusals
none_refused = record {
  stating = false;
  opening = false;
  writing = false;
  chmod = false;
  replacing = false;
  unlinking = false;
}

-- A node before the swap, on which no write fails.
abbrev pub live : Payload → IdentityFile → Disk
live mine old = record {
  store_file = store mine;
  store_mode = owner_only;
  scratch = no_scratch;
  scratch_mode = 0;
  identity_file = old;
  refusals = none_refused;
}

-- The go-bag's store is in place.
abbrev pub swapped : Payload → Disk → Disk
swapped theirs d = record d { store_file = store theirs }

abbrev entries_of_file : StoreFile → List Entry
entries_of_file (store payload) = payload.entries
entries_of_file f = []

abbrev pub entries_in : Disk → List Entry
entries_in d = entries_of_file d.store_file

abbrev grafted : Payload → List Entry → Payload
grafted payload ours = record payload {
  entries = other_entries payload.entries ++ rehomed ours (own_entries payload.entries);
}

graft_entries-fits :
    (payload : Payload) (ours : List Entry)
    → length (own_entries payload.entries) ≤ length ours
    → graft_entries payload ours ≡ some (grafted payload ours)
unfolding graft_entries
graft_entries-fits payload ours h =
    let few : ltb (length ours) (length (own_entries payload.entries)) ≡ false =
      ground (arith, h) in
    rw (few, and_false (not (is_empty ours))) refl

is_empty_lem : (es : List Entry) → 0 < length es → is_empty es ≡ false
is_empty_lem [] h = absurd (omega (arith, h))
is_empty_lem (e ∷ es) h = refl

-- For a node that has entries of its own, at least as many as the go-bag, and on which no write
-- fails: after capture, swap and restore the exit code is 0, and the store is the go-bag's but for
-- this integration's entries, of which there are as many as before. The i-th has the domain, the
-- `data`, the title, `unique_id` and all other unread fields of this node's i-th entry; each field,
-- as the integration reads it, is this node's, but for a cluster-wide field that the go-bag's i-th
-- entry has, which is the go-bag's; and its `entry_id` is that of the go-bag's entry where there is
-- one, else its own.
pub swap-keeps :
    (mine theirs : Payload) (old : IdentityFile) (i : ℕ) (key : Text)
    → 0 < length (own_entries mine.entries)
    → length (own_entries theirs.entries) ≤ length (own_entries mine.entries)
    → ((restore (swapped theirs (capture (live mine old)).1)).0 ≡ exit_ok)
      × ((new : List Entry) × ((restore (swapped theirs (capture (live mine old)).1)).1.store_file
            ≡ store (record theirs { entries = new }))
          × (other_entries new ≡ other_entries theirs.entries)
          × IsKept i key (own_entries mine.entries) (own_entries theirs.entries) (own_entries new))
unfolding capture restore write_store write_private
swap-keeps mine theirs old i key some_own fits =
    let ours = own_entries mine.entries in
    let incoming = own_entries theirs.entries in
    let h = rehomed-AreOwn ours incoming (own_entries-AreOwn mine.entries) in
    let own = own_entries-graft theirs.entries (rehomed ours incoming) h in
    rw (graft_entries-fits theirs ours fits, is_empty_lem ours some_own)
      (
        refl,
        (
          other_entries theirs.entries ++ rehomed ours incoming,
          refl,
          other_entries-graft theirs.entries (rehomed ours incoming) h,
          rw own (rehomed-IsKept i key ours incoming fits),
        ),
      )

-- How `restore` may end; on the i-th entry and a field of it where it has written.
abbrev pub IsOutcome : ℕ → Text → Disk → Exit × Disk → Type 0
IsOutcome i key d (exit_failed, e) =
    (e.store_file ≡ d.store_file)
    × (e.store_mode ≡ d.store_mode)
    × (e.identity_file ≡ d.identity_file)
IsOutcome i key d (exit_no_local_identity, e) =
    (payload : Payload) × (d.identity_file ≡ captured [])
    × (d.store_file ≡ store payload)
    × (e.store_file ≡ store (record payload { entries = other_entries payload.entries }))
    × (e.store_mode ≡ d.store_mode)
IsOutcome i key d (exit_ok, e) =
    (ours : List Entry) × (payload : Payload) × (new : List Entry) × (d.identity_file
      ≡ captured ours)
    × (d.store_file ≡ store payload)
    × (0 < length ours)
    × (e.store_file ≡ store (record payload { entries = other_entries payload.entries ++ new }))
    × IsKept i key ours (own_entries payload.entries) new
    × (e.store_mode ≡ d.store_mode)

abbrev disk : StoreFile → ℕ → Scratch → ℕ → IdentityFile → Refusals → Disk
disk f m s sm c r = record {
  store_file = f;
  store_mode = m;
  scratch = s;
  scratch_mode = sm;
  identity_file = c;
  refusals = r;
}

abbrev refusing : Bool → Bool → Bool → Bool → Bool → Bool → Refusals
refusing s o w c r u = record {
  stating = s;
  opening = o;
  writing = w;
  chmod = c;
  replacing = r;
  unlinking = u;
}

no_surplus :
    (e : Entry) (ours incoming : List Entry)
    → (not (is_empty (e ∷ ours)) && ltb (length (e ∷ ours)) (length incoming)) ≡ false
    → length incoming ≤ length (e ∷ ours)
no_surplus e ours incoming h = ground (arith, h)

-- The write comes after the refusal of a surplus.
grafted-IsOutcome :
    (i : ℕ) (key : Text) (payload : Payload) (ours : List Entry) (m : ℕ) (s : Scratch) (sm : ℕ)
    (stating opening writing chmod replacing unlinking : Bool)
    → (not (is_empty ours) && ltb (length ours) (length (own_entries payload.entries))) ≡ false
    → let d =
        disk
          (store payload)
          m
          s
          sm
          (captured ours)
          (refusing stating opening writing chmod replacing unlinking) in
      IsOutcome i key d (put_back ours (write_store (grafted payload ours) d))
unfolding write_store rehomed
grafted-IsOutcome i key payload ours m s sm true o w c r u h = (refl, refl, refl)
grafted-IsOutcome i key payload ours m s sm false true w c r u h = (refl, refl, refl)
grafted-IsOutcome i key payload ours m s sm false false true c r u h = (refl, refl, refl)
grafted-IsOutcome i key payload ours m s sm false false false true r u h = (refl, refl, refl)
grafted-IsOutcome i key payload ours m s sm false false false false true u h = (refl, refl, refl)
grafted-IsOutcome i key payload [] m s sm false false false false false u h =
    (payload, refl, refl, ap (λ es. store (record payload { entries = es })) (append-nil _), refl)
grafted-IsOutcome i key payload (e ∷ ours) m s sm false false false false false u h = (
  e ∷ ours,
  payload,
  rehomed (e ∷ ours) (own_entries payload.entries),
  refl,
  refl,
  omega arith,
  refl,
  rehomed-IsKept i key (e ∷ ours) (own_entries payload.entries)
      (no_surplus e ours (own_entries payload.entries) h),
  refl,
)

restored-IsOutcome :
    (i : ℕ) (key : Text) (f : StoreFile) (m : ℕ) (s : Scratch) (sm : ℕ) (c : IdentityFile)
    (r : Refusals)
    → IsOutcome i key (disk f m s sm c r) (restore (disk f m s sm c r))
unfolding restore graft_entries
restored-IsOutcome i key f m s sm broken r = (refl, refl, refl)
restored-IsOutcome i key absent m s sm (captured ours) r = (refl, refl, refl)
restored-IsOutcome i key unreadable m s sm (captured ours) r = (refl, refl, refl)
restored-IsOutcome i key malformed m s sm (captured ours) r = (refl, refl, refl)
restored-IsOutcome i key (store payload) m s sm (captured ours) r =
    elim (Bool-cases
      (not (is_empty ours) && ltb (length ours) (length (own_entries payload.entries)))) [
        | inl surplus ↦ rw surplus (refl, refl, refl)
        | inr fits ↦ rw fits (
            grafted-IsOutcome i key payload ours m s sm r.stating r.opening r.writing r.chmod
              r.replacing r.unlinking fits)
      ]

-- A restore that exits with 1 has left both files and the store's mode as they were, whichever step
-- of the write was refused. One that exits with 2 had no captured entry, and the store is what it
-- was, in its mode, without this integration's entries. One that exits with 0 had captured entries,
-- and the store is what it was, in its mode, but for this integration's entries: these are as many
-- as were captured, and the i-th is the captured one, but for its identifier and its cluster-wide
-- fields, which are those of the store's i-th entry before where it has them.
pub restore-IsOutcome : (d : Disk) (i : ℕ) (key : Text) → IsOutcome i key d (restore d)
restore-IsOutcome d i key =
    restored-IsOutcome i key d.store_file d.store_mode d.scratch d.scratch_mode d.identity_file
      d.refusals
