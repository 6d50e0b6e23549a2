-- ===== src/Dict/Order.antt =====
-- Python's `sorted` of a dict's items: sorting again changes nothing.
use ha_cluster_state_sync.Prelude.{
  ◌≡◌, refl, ap, ◌∙◌, true, false, [], ◌∷◌, Text, arith, Bool-cases, inl, inr,
}
use ha_cluster_state_sync.Dict.{Dict, text_ltb, insert_sorted, sorted}

text_ltb_asym : (a b : Text) → text_ltb a b ≡ true → text_ltb b a ≡ false
unfolding text_ltb
text_ltb_asym [] [] h = ground (arith, h)
text_ltb_asym [] (y ∷ b) h = refl
text_ltb_asym (x ∷ a) [] h = ground (arith, h)
text_ltb_asym (x ∷ a) (y ∷ b) h = ground (arith, h, text_ltb_asym a b)

module _ {ℓ} {V : Type ℓ} where
  -- The first key is not before `k`.
  abbrev Starts : Text → Dict V → Type 0
  Starts k [] = Unit
  Starts k ((j, w) ∷ d) = text_ltb j k ≡ false

  abbrev Chain : Dict V → Type 0
  Chain [] = Unit
  Chain ((k, v) ∷ d) = Starts k d × Chain d

  Starts-insert_sorted :
      (j k : Text) (v : V) (d : Dict V)
      → text_ltb k j ≡ false
      → Starts j d
      → Starts j (insert_sorted k v d)
  unfolding insert_sorted
  Starts-insert_sorted j k v [] h s = h
  Starts-insert_sorted j k v ((i, w) ∷ d) h s = elim (Bool-cases (text_ltb i k)) [
    | inl before ↦ rw before s
    | inr after ↦ rw after h
  ]

  insert_sorted-Chain : (k : Text) (v : V) (d : Dict V) → Chain d → Chain (insert_sorted k v d)
  unfolding insert_sorted
  insert_sorted-Chain k v [] c = (tt, tt)
  insert_sorted-Chain k v ((j, w) ∷ d) (s, c) = elim (Bool-cases (text_ltb j k)) [
    | inl before ↦
        rw before
          (Starts-insert_sorted j k v d (text_ltb_asym j k before) s, insert_sorted-Chain k v d c)
    | inr after ↦ rw after (after, (s, c))
  ]

  sorted-Chain : (d : Dict V) → Chain (sorted d)
  unfolding sorted
  sorted-Chain [] = tt
  sorted-Chain ((k, v) ∷ d) = insert_sorted-Chain k v (sorted d) (sorted-Chain d)

  insert_sorted-first :
      (k : Text) (v : V) (d : Dict V) → Starts k d → insert_sorted k v d ≡ (k, v) ∷ d
  unfolding insert_sorted
  insert_sorted-first k v [] s = refl
  insert_sorted-first k v ((j, w) ∷ d) s = rw s refl

  sorted_ordered : (d : Dict V) → Chain d → sorted d ≡ d
  unfolding sorted
  sorted_ordered [] c = refl
  sorted_ordered ((k, v) ∷ d) (s, c) =
      ap (insert_sorted k v) (sorted_ordered d c) ∙ insert_sorted-first k v d s

  pub sorted_idem : (d : Dict V) → sorted (sorted d) ≡ sorted d
  sorted_idem d = sorted_ordered (sorted d) (sorted-Chain d)
