-- ===== src/Promoter/Keys.antt =====
-- cluster_promoter.py: the keys on the server, `_leader_key`, `_promoter_key`, `_hold_key`.
use ha_cluster_state_sync.Prelude.{
  ◌≡◌, refl, ◌∙◌, false, [], ◌∷◌, ◌++◌, Text, codes, text_eq, arith,
}

abbrev prefix : Text
prefix = codes "ha:cluster_state_sync:"

unfoldable pub leader_key : Text → Text
leader_key namespace = prefix ++ (namespace ++ codes ":leader")

unfoldable pub promoter_key : Text → Text → Text
promoter_key namespace node_id = prefix ++ (namespace ++ (codes ":promoters:" ++ node_id))

unfoldable pub hold_key : Text → Text
hold_key namespace = prefix ++ (namespace ++ codes ":hold")

text_eq-append : (p a b : Text) → text_eq (p ++ a) (p ++ b) ≡ text_eq a b
unfolding text_eq
text_eq-append [] a b = refl
text_eq-append (x ∷ p) a b = ground (arith, text_eq-append p a b)

-- The heartbeat is not the lease.
pub promoter_key-ne-leader_key :
    (namespace node_id : Text)
    → text_eq (promoter_key namespace node_id) (leader_key namespace) ≡ false
unfolding promoter_key leader_key
promoter_key-ne-leader_key namespace node_id =
    text_eq-append prefix _ _ ∙ (text_eq-append namespace _ _ ∙ differ node_id)
  where
    differ : (t : Text) → text_eq (codes ":promoters:" ++ t) (codes ":leader") ≡ false
    differ t = unfold text_eq in refl

-- Nor is the hold.
pub hold_key-ne-leader_key :
    (namespace : Text) → text_eq (hold_key namespace) (leader_key namespace) ≡ false
unfolding hold_key leader_key
hold_key-ne-leader_key namespace =
    text_eq-append prefix _ _ ∙ (text_eq-append namespace _ _ ∙ unfold text_eq in refl)

pub promoter_key-ne-hold_key :
    (namespace node_id : Text)
    → text_eq (promoter_key namespace node_id) (hold_key namespace) ≡ false
unfolding promoter_key hold_key
promoter_key-ne-hold_key namespace node_id =
    text_eq-append prefix _ _ ∙ (text_eq-append namespace _ _ ∙ differ node_id)
  where
    differ : (t : Text) → text_eq (codes ":promoters:" ++ t) (codes ":hold") ≡ false
    differ t = unfold text_eq in refl
