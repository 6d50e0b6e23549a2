-- ===== src/Includes/Covered.antt =====
-- includes.py: the scan sees every file that the includes lead to from the root.
use ha_cluster_state_sync.Prelude.{
  ℕ, zero, suc, ◌+◌, ◌≤◌, ◌≡◌, ◌≢◌, refl, ◌∙◌, subst, true, ◌⊎◌, inl, inr, List, [], ◌∷◌, ◌++◌,
  Text, text_eq, text_eq_iff, text_eq_refl, arith, Bool-cases, Option-cases,
}
use ha_cluster_state_sync.Dict.{contains-append, contains}
use ha_cluster_state_sync.Includes.{
  Config, IncludeScan, Scan, scanned, raised, out_of_fuel, visit, loop, nothing_yet, scan,
}
use ha_cluster_state_sync.Includes.Reach.{
  AllIn, AllIn-within, AllIn-self, AllIn-contains, Every, Every-contains, Every-map, included,
  visit-included, weight, IsClosed, loop-ends,
}

-- A file that the includes lead to.
pub data Reaches (c : Config) (root : Text) : Text → Type 0 where
  start : Reaches c root root
  step : {u x : Text} → Reaches c root u → contains x (included c u) ≡ true → Reaches c root x

module _ (c : Config) where
  -- What the files that are seen lead to is seen or waits.
  abbrev IsOwed : List Text → List Text → Type 0
  IsOwed q seen = Every (λ u. AllIn (q ++ seen) (included c u)) seen

  dropped :
      (x : Text) (q seen : List Text)
      → contains x seen ≡ true
      → (y : Text) → contains y (x ∷ (q ++ seen)) ≡ true
      → contains y (q ++ seen) ≡ true
  unfolding contains
  dropped x q seen old y h = elim (Bool-cases (text_eq y x)) [
    | inl same ↦
        contains-append y q seen ∙ (let e = (text_eq_iff y x).0 same in rw e (ground (arith, old)))
    | inr other ↦ rw other at h
  ]

  moved :
      (x : Text) (new q seen : List Text) (y : Text)
      → contains y (x ∷ (q ++ seen)) ≡ true
      → contains y ((new ++ q) ++ (x ∷ seen)) ≡ true
  unfolding contains
  moved x new q seen y h = ground (
    arith,
    h,
    contains-append y q seen,
    contains-append y (new ++ q) (x ∷ seen),
    contains-append y new q,
  )

  arrived :
      (x : Text) (new q seen : List Text) (y : Text)
      → contains y new ≡ true
      → contains y ((new ++ q) ++ (x ∷ seen)) ≡ true
  arrived x new q seen y h =
      ground (arith, h, contains-append y (new ++ q) (x ∷ seen), contains-append y new q)

  loop-covers :
      (root : Text) (n : ℕ) (q seen last : List Text) (r result : IncludeScan)
      → IsOwed q seen
      → contains root (q ++ seen) ≡ true
      → loop c n q seen r ≡ scanned last result
      → (contains root last ≡ true) × Every (λ u. AllIn last (included c u)) last
  unfolding loop Every
  loop-covers root n [] seen last r result owed h e =
      let same : seen ≡ last = ground (arith, e) in
      subst (λ l. (contains root l ≡ true) × Every (λ u. AllIn l (included c u)) l) same (h, owed)
  loop-covers root zero (x ∷ q) seen last r result owed h e = absurd (ground (arith, e))
  loop-covers root (suc n) (x ∷ q) seen last r result owed h e =
      elim (Bool-cases (contains x seen)) [
        | inl old ↦
            loop-covers root n q seen last r result
              (Every-map (λ u. AllIn (x ∷ (q ++ seen)) (included c u))
                (λ u. AllIn (q ++ seen) (included c u)) seen
                (λ u.
                  AllIn-within (x ∷ (q ++ seen)) (q ++ seen) (included c u) (dropped x q seen old))
                owed)
              (dropped x q seen old root h) (rw (loop, old) at e)
        | inr fresh ↦ elim (Option-cases (visit c x r q)) [
          | inl none_left ↦ absurd (let k = rw (loop, fresh, none_left) at e in ground (arith, k))
          | inr ((after, more), went) ↦
              let eq : more ≡ included c x ++ q = visit-included c x r after q more went in
              let k : loop c n (included c x ++ q) (x ∷ seen) after ≡ scanned last result =
                subst (λ m. loop c n m (x ∷ seen) after ≡ scanned last result) eq
                  (rw (loop, fresh, went) at e) in
              loop-covers root n (included c x ++ q) (x ∷ seen) last after result
                (
                  AllIn-self ((included c x ++ q) ++ (x ∷ seen)) (included c x) []
                      (arrived x (included c x) q seen),
                  Every-map (λ u. AllIn (x ∷ (q ++ seen)) (included c u))
                      (λ u. AllIn ((included c x ++ q) ++ (x ∷ seen)) (included c u)) seen
                      (λ u.
                        AllIn-within (x ∷ (q ++ seen)) ((included c x ++ q) ++ (x ∷ seen))
                          (included c u) (moved x (included c x) q seen))
                      owed,
                )
                (moved x (included c x) q seen root h) k
        ]
      ]

  reached-seen :
      (root x : Text) (last : List Text)
      → contains root last ≡ true
      → Every (λ u. AllIn last (included c u)) last
      → Reaches c root x
      → contains x last ≡ true
  reached-seen root x last h covers start = h
  reached-seen root x last h covers (step {u = u} path leads) =
      AllIn-contains last (included c u) x
        (Every-contains (λ v. AllIn last (included c v)) last u covers
          (reached-seen root u last h covers path))
        leads

  ended :
      (s : Scan)
      → s ≢ out_of_fuel
      → (s ≡ raised) ⊎ ((seen : List Text) × (r : IncludeScan) × (s ≡ scanned seen r))
  ended (scanned seen r) h = inr (seen, r, refl)
  ended raised h = inl refl
  ended out_of_fuel h = absurd (h refl)

  -- Where the files of a finite list, the root among them, lead to no file outside it, fuel of one more
  -- than what they all lead to is enough, also on cycles: the scan ends in the exception of a file, or
  -- it ends and has seen every file that the includes lead to from the root.
  pub scan-covers :
      (us : List Text) (root x : Text) (n : ℕ)
      → IsClosed c us us
      → contains root us ≡ true
      → 1 + weight c us [] ≤ n
      → Reaches c root x
      → (scan c n root ≡ raised)
        ⊎ ((seen : List Text) × (r : IncludeScan) × (scan c n root ≡ scanned seen r)
            × (contains x seen ≡ true))
  unfolding scan AllIn contains Every
  scan-covers us root x n closed root_in fuel path =
      elim (ended (scan c n root)
        (loop-ends c us n (root ∷ []) [] (nothing_yet c) closed (root_in, tt) fuel)) [
          | inl broken ↦ inl broken
          | inr (seen, r, done) ↦
              let (h, covers) =
                loop-covers root n (root ∷ []) [] seen (nothing_yet c) r tt
                  (rw (text_eq_refl root) refl) done in
              inr (seen, r, done, reached-seen root x seen h covers path)
        ]
