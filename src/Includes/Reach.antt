-- ===== src/Includes/Reach.antt =====
-- includes.py: that the scan ends, also on a cycle, and what it sees.
use ha_cluster_state_sync.Prelude.{
  ℕ, zero, suc, ◌+◌, ◌≤◌, ◌≡◌, ◌≢◌, refl, sym, ap, ◌∙◌, subst, true, false, not, some, List, [],
  ◌∷◌, ◌++◌, Text, text_eq, text_eq_iff, text_eq_refl, length, length-append, if◌then◌else◌, arith,
  Bool-cases, Option-cases, inl, inr, append_assoc,
}
use ha_cluster_state_sync.Dict.{contains}
use ha_cluster_state_sync.Includes.{
  Tag, include_file, include_dir, Opened, found, not_found, failed, raises, Config, IncludeScan,
  out_of_fuel, push_all, follow, follow_all, visit, visit_opened, loop,
}

unfoldable pub AllIn : List Text → List Text → Type 0
AllIn universe [] = Unit
AllIn universe (x ∷ xs) = (contains x universe ≡ true) × AllIn universe xs

AllIn-append : (us xs ys : List Text) → AllIn us xs → AllIn us ys → AllIn us (xs ++ ys)
unfolding AllIn
AllIn-append us [] ys h k = k
AllIn-append us (x ∷ xs) ys (x_in, h) k = (x_in, AllIn-append us xs ys h k)

pub AllIn-within :
    (us vs xs : List Text)
    → ((x : Text) → contains x us ≡ true → contains x vs ≡ true)
    → AllIn us xs
    → AllIn vs xs
unfolding AllIn
AllIn-within us vs [] f h = tt
AllIn-within us vs (x ∷ xs) f (x_in, h) = (f x x_in, AllIn-within us vs xs f h)

pub AllIn-self :
    (us xs ys : List Text)
    → ((x : Text) → contains x xs ≡ true → contains x us ≡ true)
    → AllIn us xs
unfolding AllIn contains
AllIn-self us [] ys f = tt
AllIn-self us (x ∷ xs) ys f =
    (f x (rw (text_eq_refl x) refl), AllIn-self us xs ys (λ y h. f y (ground (arith, h))))

pub AllIn-contains :
    (us xs : List Text) (x : Text) → AllIn us xs → contains x xs ≡ true → contains x us ≡ true
unfolding AllIn contains
AllIn-contains us [] x h there = absurd (ground (arith, there))
AllIn-contains us (y ∷ xs) x (y_in, h) there = elim (Bool-cases (text_eq x y)) [
  | inl same ↦ subst (λ t. contains t us ≡ true) (sym ((text_eq_iff x y).0 same)) y_in
  | inr other ↦ AllIn-contains us xs x h (rw other at there)
]

-- `P` of every text of a list.
unfoldable pub Every : (Text → Type 0) → List Text → Type 0
Every P [] = Unit
Every P (x ∷ xs) = P x × Every P xs

pub Every-contains :
    (P : Text → Type 0) (xs : List Text) (x : Text) → Every P xs → contains x xs ≡ true → P x
unfolding Every contains
Every-contains P [] x h there = absurd (ground (arith, there))
Every-contains P (y ∷ xs) x (q, h) there = elim (Bool-cases (text_eq x y)) [
  | inl same ↦ subst P (sym ((text_eq_iff x y).0 same)) q
  | inr other ↦ Every-contains P xs x h (rw other at there)
]

pub Every-map :
    (P Q : Text → Type 0) (xs : List Text) → ((x : Text) → P x → Q x) → Every P xs → Every Q xs
unfolding Every
Every-map P Q [] f h = tt
Every-map P Q (x ∷ xs) f (q, h) = (f x q, Every-map P Q xs f h)

module _ (c : Config) where
  -- The files that a tag leads to.
  abbrev leads : Text → Tag × Text → List Text
  leads current (tag, value) =
      let t = c.target current value in
      if not (c.within t) then [] else elim tag [
        | include_file ↦ t ∷ []
        | include_dir ↦ if not (c.is_dir t) then [] else push_all (c.yaml_under t) []
      ]

  abbrev lead_all : Text → List (Tag × Text) → List Text
  lead_all current [] = []
  lead_all current (tag ∷ tags) = lead_all current tags ++ leads current tag

  abbrev of_opened : Text → Opened → List Text
  of_opened current (found tags) = lead_all current tags
  of_opened current o = []

  unfoldable pub included : Text → List Text
  included current = of_opened current (c.open_file current)

  push_all-append : (xs q : List Text) → push_all xs q ≡ push_all xs [] ++ q
  push_all-append [] q = refl
  push_all-append (x ∷ xs) q =
      push_all-append xs (x ∷ q)
      ∙ (sym (append_assoc (push_all xs []) (x ∷ []) q)
          ∙ ap (λ t. t ++ q) (sym (push_all-append xs (x ∷ []))))

  follow-leads :
      (current : Text) (tag : Tag × Text) (r : IncludeScan) (q : List Text)
      → (follow c current tag (r, q)).1 ≡ leads current tag ++ q
  unfolding follow
  follow-leads current (include_file, value) r q =
      elim (Bool-cases (not (c.within (c.target current value)))) [
        | inl out ↦ rw out refl
        | inr inside ↦ rw inside refl
      ]
  follow-leads current (include_dir, value) r q =
      elim (Bool-cases (not (c.within (c.target current value)))) [
        | inl out ↦ rw out refl
        | inr inside ↦ elim (Bool-cases (not (c.is_dir (c.target current value)))) [
          | inl absent ↦ rw (inside, absent) refl
          | inr there ↦
              rw (inside, there) (push_all-append (c.yaml_under (c.target current value)) q)
        ]
      ]

  follow_all-lead_all :
      (current : Text) (tags : List (Tag × Text)) (r : IncludeScan) (q : List Text)
      → (follow_all c current tags (r, q)).1 ≡ lead_all current tags ++ q
  unfolding follow_all
  follow_all-lead_all current [] r q = refl
  follow_all-lead_all current (tag ∷ tags) r q =
      let next = follow c current tag (r, q) in
      follow_all-lead_all current tags next.0 next.1
      ∙ (ap (λ t. lead_all current tags ++ t) (follow-leads current tag r q)
          ∙ sym (append_assoc (lead_all current tags) (leads current tag) q))

  visit_opened-included :
      (current : Text) (o : Opened) (r after : IncludeScan) (q more : List Text)
      → visit_opened c current o r q ≡ some (after, more)
      → more ≡ of_opened current o ++ q
  visit_opened-included current not_found r after q more h = ground (arith, h)
  visit_opened-included current failed r after q more h = ground (arith, h)
  visit_opened-included current raises r after q more h = absurd (ground (arith, h))
  visit_opened-included current (found tags) r after q more h =
      let e : (follow_all c current tags (r, q)).1 ≡ more = ground (arith, h) in
      sym e ∙ follow_all-lead_all current tags r q

  pub visit-included :
      (current : Text) (r after : IncludeScan) (q more : List Text)
      → visit c current r q ≡ some (after, more)
      → more ≡ included current ++ q
  unfolding visit included
  visit-included current r after q more h =
      visit_opened-included current (c.open_file current) r after q more h

  -- How many entries of the queue the files of `universe` that are not seen yet can still cause.
  abbrev pub weight : List Text → List Text → ℕ
  weight [] seen = 0
  weight (u ∷ us) seen = (if contains u seen then 0 else length (included u)) + weight us seen

  weight-less :
      (us : List Text) (x : Text) (seen : List Text) → weight us (x ∷ seen) ≤ weight us seen
  unfolding contains
  weight-less [] x seen = omega arith
  weight-less (u ∷ us) x seen = ground (arith, weight-less us x seen)

  weight-seen :
      (us : List Text) (x : Text) (seen : List Text)
      → contains x us ≡ true
      → contains x seen ≡ false
      → length (included x) + weight us (x ∷ seen) ≤ weight us seen
  unfolding contains
  weight-seen [] x seen h fresh = absurd (ground (arith, h))
  weight-seen (u ∷ us) x seen h fresh = elim (Bool-cases (text_eq x u)) [
    | inl same ↦
        let e : x ≡ u = (text_eq_iff x u).0 same in
        rw (sym e, text_eq_refl x, fresh) (omega (arith, weight-less us x seen))
    | inr other ↦
        ground (arith, other, fresh, h, text_eq_iff x u, text_eq_iff u x, weight-seen us x seen)
  ]

  -- The files of `us` lead to no file outside it.
  unfoldable pub IsClosed : List Text → List Text → Type 0
  unfolding AllIn included
  IsClosed us [] = Unit
  IsClosed us (x ∷ xs) = AllIn us (included x) × IsClosed us xs

  IsClosed-at :
      (us xs : List Text) (x : Text) → IsClosed us xs → contains x xs ≡ true → AllIn us (included x)
  unfolding IsClosed contains
  IsClosed-at us [] x h there = absurd (ground (arith, there))
  IsClosed-at us (y ∷ xs) x (y_in, h) there = elim (Bool-cases (text_eq x y)) [
    | inl same ↦ subst (λ t. AllIn us (included t)) (sym ((text_eq_iff x y).0 same)) y_in
    | inr other ↦ IsClosed-at us xs x h (rw other at there)
  ]

  pub loop-ends :
      (us : List Text) (n : ℕ) (q seen : List Text) (r : IncludeScan)
      → IsClosed us us
      → AllIn us q
      → length q + weight us seen ≤ n
      → loop c n q seen r ≢ out_of_fuel
  unfolding loop AllIn
  loop-ends us n [] seen r k h fuel = λ e. ground (arith, e)
  loop-ends us zero (x ∷ q) seen r k h fuel = absurd (omega (arith, fuel))
  loop-ends us (suc n) (x ∷ q) seen r k (x_in, h) fuel = elim (Bool-cases (contains x seen)) [
    | inl old ↦ rw (loop, old) (loop-ends us n q seen r k h (omega (arith, fuel)))
    | inr fresh ↦ elim (Option-cases (visit c x r q)) [
      | inl none_left ↦ rw (loop, fresh, none_left) (λ e. ground (arith, e))
      | inr ((after, more), went) ↦
          let e : more ≡ included x ++ q = visit-included x r after q more went in
          let size : length more ≡ length (included x) + length q =
            ap length e ∙ length-append (included x) q in
          rw (loop, fresh, went)
            (loop-ends us n more (x ∷ seen) after k
              (subst (AllIn us) (sym e)
                (AllIn-append us (included x) q (IsClosed-at us us x k x_in) h))
              (omega (arith, fuel, size, weight-seen us x seen x_in fresh)))
    ]
  ]
