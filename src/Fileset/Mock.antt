-- ===== src/Fileset/Mock.antt =====
-- A server that meets the laws of a keyspace: a dict from keys to values.
use ha_cluster_state_sync.Prelude.{
  ◌≡◌, ◌≢◌, refl, true, none, some, List, [], ◌∷◌, Text, text_eq, text_eq_iff, starts_with,
  if◌then◌else◌, arith,
}
use ha_cluster_state_sync.Dict.{Dict, contains, keys, lookup, insert, lookup-insert}
use ha_cluster_state_sync.Fileset.Keyspace.{Keyspace, KeyspaceLaws}

abbrev pub Mock : Type 0
Mock = Dict Text

abbrev remove : Text → Mock → Mock
remove k [] = []
remove k ((j, v) ∷ d) = if text_eq k j then remove k d else (j, v) ∷ remove k d

abbrev matching : Text → List Text → List Text
matching prefix [] = []
matching prefix (k ∷ ks) =
    if starts_with prefix k then k ∷ matching prefix ks else matching prefix ks

abbrev pub mock : Keyspace Mock
mock = record {
  get = lookup;
  set = insert;
  del = remove;
  scan = λ prefix d. matching prefix (keys d);
}

get-set_lem :
    (k j v : Text) (d : Mock)
    → lookup j (insert k v d) ≡ (if text_eq k j then some v else lookup j d)
get-set_lem k j v d = ground (arith, lookup-insert j k v d, text_eq_iff j k, text_eq_iff k j)

get-remove :
    (k j : Text) (d : Mock) → lookup j (remove k d) ≡ (if text_eq k j then none else lookup j d)
unfolding lookup
get-remove k j [] = ground arith
get-remove k j ((i, w) ∷ d) =
    ground (arith, get-remove k j d, text_eq_iff k j, text_eq_iff j i, text_eq_iff k i)

matching_sound :
    (prefix k : Text) (ks : List Text)
    → contains k (matching prefix ks) ≡ true
    → starts_with prefix k ≡ true
unfolding contains
matching_sound prefix k [] h = ground (arith, h)
matching_sound prefix k (j ∷ ks) h = ground (arith, matching_sound prefix k ks, text_eq_iff k j)

matching_complete :
    (prefix k : Text) (d : Mock)
    → starts_with prefix k ≡ true
    → lookup k d ≢ none
    → contains k (matching prefix (keys d)) ≡ true
unfolding contains keys lookup
matching_complete prefix k [] h there = absurd (there refl)
matching_complete prefix k ((j, v) ∷ d) h there =
    ground (arith, h, there, matching_complete prefix k d h, text_eq_iff k j)

pub mock-laws : KeyspaceLaws mock
mock-laws = record {
  get-set = get-set_lem;
  get-del = get-remove;
  scan-sound = λ prefix k s. matching_sound prefix k (keys s);
  scan-complete = matching_complete;
}
