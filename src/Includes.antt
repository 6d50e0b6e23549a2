-- ===== src/Includes.antt =====
-- custom_components/cluster_state_sync/includes.py: `IncludeScan`, `scan`, over what the files of a
-- configuration hold.
use ha_cluster_state_sync.Prelude.{
  ℕ, zero, suc, Bool, true, false, not, Option, none, some, List, [], ◌∷◌, ◌++◌, Text,
  if◌then◌else◌,
}
use ha_cluster_state_sync.Dict.{contains}
pub mod Reach
pub mod Covered
mod Tests

pub data Tag : Type 0 where
  include_file : Tag
  include_dir : Tag

-- A file as the collector reads it: the tags that it found, `FileNotFoundError`, another `OSError` or a
-- `YAMLError`, or any other exception, such as the `UnicodeDecodeError` of a text that is not UTF-8.
pub data Opened : Type 0 where
  found : List (Tag × Text) → Opened
  not_found : Opened
  failed : Opened
  raises : Opened

-- What the scan asks of the file system. `target` is `realpath` of a value beside a file; `yaml_under`
-- are the sorted `*.yaml` below a directory without a dotted part; `rel` is `_rel`.
pub record Config : Type 0 where
  pub open_file : Text → Opened
  pub target : Text → Text → Text
  pub within : Text → Bool
  pub is_dir : Text → Bool
  pub yaml_under : Text → List Text
  pub rel : Text → Text

-- `paths` is a set, kept without duplicates.
pub record IncludeScan : Type 0 where
  pub paths : List Text
  pub outside : List (Text × Text)
  pub missing : List (Text × Text)
  pub unreadable : List Text

-- The end of a scan, with the files that it has seen; `out_of_fuel` is the model's own.
pub data Scan : Type 0 where
  scanned : List Text → IncludeScan → Scan
  raised : Scan
  out_of_fuel : Scan

abbrev add_path : Text → IncludeScan → IncludeScan
add_path x r = if contains x r.paths then r else record r { paths = r.paths ++ (x ∷ []) }

-- Each is put on the end of the queue, which is the head here.
abbrev pub push_all : List Text → List Text → List Text
push_all [] queue = queue
push_all (x ∷ xs) queue = push_all xs (x ∷ queue)

module _ (c : Config) where
  -- One tag of a file.
  unfoldable pub follow : Text → Tag × Text → IncludeScan × List Text → IncludeScan × List Text
  unfolding contains
  follow current (tag, value) (r, queue) =
      let t = c.target current value in
      if not (c.within t)
      then (record r { outside = r.outside ++ ((c.rel current, t) ∷ []) }, queue)
      else elim tag [
        | include_file ↦ (add_path (c.rel t) r, t ∷ queue)
        | include_dir ↦
            if not (c.is_dir t)
            then (
              record (add_path (c.rel t) r) { missing = r.missing ++ ((c.rel current, t) ∷ []) },
              queue,
            )
            else (add_path (c.rel t) r, push_all (c.yaml_under t) queue)
      ]

  unfoldable pub follow_all :
      Text → List (Tag × Text) → IncludeScan × List Text → IncludeScan × List Text
  unfolding follow
  follow_all current [] state = state
  follow_all current (tag ∷ tags) state = follow_all current tags (follow current tag state)

  abbrev pub visit_opened :
      Text → Opened → IncludeScan → List Text → Option (IncludeScan × List Text)
  visit_opened current not_found r queue =
      some (record r { missing = r.missing ++ ((c.rel current, current) ∷ []) }, queue)
  visit_opened current failed r queue =
      some (record r { unreadable = r.unreadable ++ (c.rel current ∷ []) }, queue)
  visit_opened current (found tags) r queue = some (follow_all current tags (r, queue))
  visit_opened current raises r queue = none

  -- What a file does to the result and to the queue; none is an exception that leaves the scan.
  unfoldable pub visit : Text → IncludeScan → List Text → Option (IncludeScan × List Text)
  unfolding follow_all
  visit current r queue = visit_opened current (c.open_file current) r queue

  unfoldable pub loop : ℕ → List Text → List Text → IncludeScan → Scan
  unfolding contains visit
  loop n [] seen r = scanned seen r
  loop zero (current ∷ queue) seen r = out_of_fuel
  loop (suc n) (current ∷ queue) seen r = elim (contains current seen) [
    | true ↦ loop n queue seen r
    | false ↦ elim (visit current r queue) [
      | none ↦ raised
      | some (after, more) ↦ loop n more (current ∷ seen) after
    ]
  ]

  abbrev pub nothing_yet : IncludeScan
  nothing_yet = record { paths = []; outside = []; missing = []; unreadable = [] }

  -- From the root of the configuration.
  unfoldable pub scan : ℕ → Text → Scan
  unfolding loop
  scan fuel root = loop fuel (root ∷ []) [] nothing_yet
