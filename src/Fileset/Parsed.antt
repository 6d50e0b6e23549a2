-- ===== src/Fileset/Parsed.antt =====
-- custom_components/cluster_state_sync/scripts/fileset_pull.py: what `restore_fileset` takes from a
-- manifest, with the exceptions of `json`, of `int` and of a missing or mistyped field.
use ha_cluster_state_sync.Prelude.{
  ℤ, pos, Bool, true, false, Option, none, some, List, [], ◌∷◌, Text, text_eq, codes, if◌then◌else◌,
}
use ha_cluster_state_sync.Dict.{Dict, lookup, text_ltb}
use ha_cluster_state_sync.Fileset.Json.{
  finite, nan, infinite, Json, null, boolean, integer, real, str, arr, obj, dict_of,
}

-- A value, an exception that is caught (`ValueError`, `KeyError`, `TypeError`), or `OverflowError`.
pub data Tried (A : Type 0) : Type 0 where
  fine : A → Tried A
  bad : Tried A
  overflow : Tried A

abbrev pub and_try : {A B : Type 0} → (A → Tried B) → Tried A → Tried B
and_try f (fine a) = f a
and_try f bad = bad
and_try f overflow = overflow

abbrev pub or_bad : {A : Type 0} → Option A → Tried A
or_bad none = bad
or_bad (some a) = fine a

abbrev of_bool : Bool → ℤ
of_bool true = pos 1
of_bool false = pos 0

-- `int(value)`; `int_of_text` is `int` of a text, which the library carries.
unfoldable pub int : (int_of_text : Text → Option ℤ) → Json → Tried ℤ
int int_of_text (integer n) = fine n
int int_of_text (boolean b) = fine (of_bool b)
int int_of_text (real (finite n)) = fine n
int int_of_text (real nan) = bad
int int_of_text (real infinite) = overflow
int int_of_text (str t) = or_bad (int_of_text t)
int int_of_text null = bad
int int_of_text (arr js) = bad
int int_of_text (obj ms) = bad

-- `value[key]` with a text for a key.
unfoldable pub item_of : (key : Text) → Json → Tried Json
unfolding lookup dict_of
item_of key (obj ms) = or_bad (lookup key (dict_of ms))
item_of key (integer n) = bad
item_of key (boolean b) = bad
item_of key (real r) = bad
item_of key (str t) = bad
item_of key null = bad
item_of key (arr js) = bad

pub record PullEntry : Type 0 where
  pub ref : Text
  pub mode : ℤ

abbrev checked : Json → Json → Tried PullEntry
checked (str ref) (integer mode) = fine (record { ref = ref; mode = mode })
checked (str ref) (boolean mode) = fine (record { ref = ref; mode = of_bool mode })
checked ref mode = bad

unfoldable pub entry_of_json : Json → Tried PullEntry
unfolding item_of
entry_of_json j =
    and_try (λ ref. and_try (checked ref) (item_of (codes "mode") j)) (item_of (codes "ref") j)

abbrev pub with_entry : Text → PullEntry → Tried (Dict PullEntry) → Tried (Dict PullEntry)
with_entry rel e = and_try (λ es. fine ((rel, e) ∷ es))

unfoldable pub entries_of_dict : Dict Json → Tried (Dict PullEntry)
unfolding entry_of_json
entries_of_dict [] = fine []
entries_of_dict ((rel, j) ∷ js) =
    let rest = entries_of_dict js in and_try (λ e. with_entry rel e rest) (entry_of_json j)

abbrev pub is_dict : Json → Tried (Dict Json)
is_dict (obj ms) = fine (dict_of ms)
is_dict j = bad

pub record Parsed : Type 0 where
  pub generation : ℤ
  pub entries : Dict PullEntry

unfoldable pub parsed : (int_of_text : Text → Option ℤ) → Json → Tried Parsed
unfolding item_of int entries_of_dict dict_of
parsed int_of_text manifest =
    and_try
      (λ entries.
        and_try
          (λ generation.
            and_try (λ es. fine (record { generation = generation; entries = es }))
              (entries_of_dict entries))
          (and_try (int int_of_text) (item_of (codes "generation") manifest)))
      (and_try is_dict (item_of (codes "entries") manifest))

-- `sorted({e["ref"] for e in entries.values()})`
unfoldable pub add_ref : Text → List Text → List Text
unfolding text_ltb
add_ref ref [] = ref ∷ []
add_ref ref (r ∷ rs) =
    let rest = add_ref ref rs in
    if text_eq ref r then r ∷ rs else if text_ltb ref r then ref ∷ (r ∷ rs) else r ∷ rest

unfoldable pub refs : Dict PullEntry → List Text
unfolding add_ref
refs [] = []
refs ((rel, e) ∷ es) = add_ref e.ref (refs es)
