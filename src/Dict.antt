-- ===== src/Dict.antt =====
-- Python's `dict` with text keys, in insertion order, and `sorted` of its items. The proofs
-- elsewhere go by the laws of `lookup`.
pub mod Order
use Prim.Native.Nat.{compare, Ordering}
use ha_cluster_state_sync.Prelude.{
  ◌++◌, ℕ, ◌≡◌, ◌≢◌, ◌⊎◌, inl, inr, refl, Bool, true, false, ◌||◌, Option, none, some, List, [],
  ◌∷◌, map, Text, text_eq, text_eq_iff, text_eq_refl, if◌then◌else◌, ltb, arith, Bool-cases,
}

-- `<` of texts, by code points.
unfoldable pub text_ltb : Text → Text → Bool
text_ltb [] [] = false
text_ltb [] (b ∷ t) = true
text_ltb (a ∷ s) [] = false
text_ltb (a ∷ s) (b ∷ t) =
    let rest = text_ltb s t in
    elim (compare a b) [ Ordering.lt ↦ true | Ordering.eq ↦ rest | Ordering.gt ↦ false ]

-- `x in xs`
unfoldable pub contains : Text → List Text → Bool
contains x [] = false
contains x (y ∷ ys) = text_eq x y || contains x ys

pub contains-append :
    (x : Text) (xs ys : List Text) → contains x (xs ++ ys) ≡ (contains x xs || contains x ys)
unfolding contains
contains-append x [] ys = refl
contains-append x (y ∷ xs) ys = ground (arith, contains-append x xs ys)

abbrev pub Dict {ℓ} : Type ℓ → Type ℓ
Dict V = List (Text × V)

module _ {ℓ} {V : Type ℓ} where
  unfoldable pub keys : Dict V → List Text
  keys [] = []
  keys ((k, v) ∷ d) = k ∷ keys d

  unfoldable pub lookup : Text → Dict V → Option V
  lookup j [] = none
  lookup j ((k, v) ∷ d) = if text_eq j k then some v else lookup j d

  -- `d[k] = v`
  unfoldable pub insert : Text → V → Dict V → Dict V
  insert k v [] = (k, v) ∷ []
  insert k v ((j, w) ∷ d) = if text_eq k j then (j, v) ∷ d else (j, w) ∷ insert k v d

  unfoldable pub insert_sorted : Text → V → Dict V → Dict V
  unfolding text_ltb
  insert_sorted k v [] = (k, v) ∷ []
  insert_sorted k v ((j, w) ∷ d) =
      if text_ltb j k then (j, w) ∷ insert_sorted k v d else (k, v) ∷ ((j, w) ∷ d)

  -- `sorted(d.items())`
  unfoldable pub sorted : Dict V → Dict V
  unfolding insert_sorted
  sorted [] = []
  sorted ((k, v) ∷ d) = insert_sorted k v (sorted d)

  abbrev pub NodupKeys : Dict V → Type ℓ
  NodupKeys [] = Unit
  NodupKeys ((k, v) ∷ d) = (lookup k d ≡ none) × NodupKeys d

  pub lookup-insert :
      (j k : Text) (v : V) (d : Dict V)
      → lookup j (insert k v d) ≡ (if text_eq j k then some v else lookup j d)
  unfolding insert lookup
  lookup-insert j k v [] = refl
  lookup-insert j k v ((i, w) ∷ d) =
      ground (arith, text_eq_iff j k, text_eq_iff j i, text_eq_iff k i, lookup-insert j k v d)

  pub insert-NodupKeys : (k : Text) (v : V) (d : Dict V) → NodupKeys d → NodupKeys (insert k v d)
  unfolding insert lookup
  insert-NodupKeys k v [] h = (refl, tt)
  insert-NodupKeys k v ((j, w) ∷ d) (fresh, h) = elim (Bool-cases (text_eq k j)) [
    | inl same ↦ rw same (fresh, h)
    | inr other ↦ rw other (
      ground (arith, lookup-insert j k v d, text_eq_iff j k, text_eq_iff k j),
      insert-NodupKeys k v d h,
    )
  ]

  lookup-insert_sorted :
      (j k : Text) (v : V) (d : Dict V)
      → lookup k d ≡ none
      → lookup j (insert_sorted k v d) ≡ (if text_eq j k then some v else lookup j d)
  unfolding insert_sorted lookup
  lookup-insert_sorted j k v [] h = refl
  lookup-insert_sorted j k v ((i, w) ∷ d) h = ground (
    arith,
    text_eq_iff j k,
    text_eq_iff j i,
    text_eq_iff k i,
    text_eq_refl k,
    lookup-insert_sorted j k v d,
  )

  insert_sorted-NodupKeys :
      (k : Text) (v : V) (d : Dict V)
      → lookup k d ≡ none
      → NodupKeys d
      → NodupKeys (insert_sorted k v d)
  unfolding insert_sorted lookup
  insert_sorted-NodupKeys k v [] h u = (refl, tt)
  insert_sorted-NodupKeys k v ((i, w) ∷ d) h (fresh, u) = elim (Bool-cases (text_ltb i k)) [
    | inl before ↦ rw before (
      ground
          (arith, lookup-insert_sorted i k v d, text_eq_iff i k, text_eq_iff k i, text_eq_refl k),
      insert_sorted-NodupKeys k v d (ground (arith, text_eq_iff k i)) u,
    )
    | inr after ↦ rw after (h, (fresh, u))
  ]

  pub lookup-sorted : (j : Text) (d : Dict V) → NodupKeys d → lookup j (sorted d) ≡ lookup j d
  unfolding sorted lookup
  lookup-sorted j [] u = refl
  lookup-sorted j ((k, v) ∷ d) (fresh, u) =
      ground
        (arith, lookup-insert_sorted j k v (sorted d), lookup-sorted j d u, lookup-sorted k d u)

  pub sorted-NodupKeys : (d : Dict V) → NodupKeys d → NodupKeys (sorted d)
  unfolding sorted
  sorted-NodupKeys [] u = tt
  sorted-NodupKeys ((k, v) ∷ d) (fresh, u) =
      insert_sorted-NodupKeys k v (sorted d) (ground (arith, lookup-sorted k d u))
        (sorted-NodupKeys d u)
