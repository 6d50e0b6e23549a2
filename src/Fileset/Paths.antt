-- ===== src/Fileset/Paths.antt =====
-- Paths of a manifest under the staging root: `(root / rel).resolve()`, `is_relative_to`.
use ha_cluster_state_sync.Prelude.{
  ℕ, Bool, true, false, ◌&&◌, Option, none, some, List, [], ◌∷◌, ◌++◌, Text, text_eq, starts_with,
  codes, ◌==◌, if◌then◌else◌,
}

-- What is between the slashes.
abbrev more : ℕ → List Text → List Text
more c [] = (c ∷ []) ∷ []
more c (part ∷ parts) = (c ∷ part) ∷ parts

unfoldable pub split_slash : Text → List Text
split_slash [] = [] ∷ []
split_slash (c ∷ t) = let rest = split_slash t in if c == b'/' then [] ∷ rest else more c rest

-- One part of a path on the parts before it, the last first.
abbrev pub go_in : Text → List Text → List Text
go_in part at =
    if text_eq part []
    then at
    else if text_eq part (codes ".")
    then at
    else if text_eq part (codes "..")
    then elim at [ [] ↦ [] | last ∷ above ↦ above ]
    else part ∷ at

abbrev pub walk : List Text → List Text → List Text
walk [] at = at
walk (part ∷ parts) at = walk parts (go_in part at)

-- `root / rel`, resolved where the way has no symbolic link. An absolute `rel` replaces the root.
unfoldable pub resolved : (root : List Text) → (rel : Text) → List Text
unfolding split_slash
resolved root [] = root
resolved root (c ∷ rel) = walk (split_slash (c ∷ rel)) (if c == b'/' then [] else root)

abbrev same_path : List Text → List Text → Bool
same_path [] [] = true
same_path [] (b ∷ t) = false
same_path (a ∷ s) [] = false
same_path (a ∷ s) (b ∷ t) = text_eq a b && same_path s t

abbrev pub join : Text → Text → Text
join part [] = part
join part (c ∷ t) = part ++ (b'/' ∷ (c ∷ t))

-- The path below `root` as a text, none where it is not below it.
unfoldable pub below : (root : List Text) → List Text → (beneath : Text) → Option Text
below root [] beneath = if same_path root [] then some beneath else none
below root (part ∷ at) beneath =
    let up = below root at (join part beneath) in
    if same_path root (part ∷ at) then some beneath else up

-- None where the path escapes.
unfoldable pub target_of : (root : List Text) → (rel : Text) → Option Text
unfolding resolved below
target_of root rel = below root (resolved root rel) []

-- The two paths cannot both be files: one is a directory above the other.
unfoldable pub is_above : Text → Text → Bool
unfolding starts_with
is_above [] t = true
is_above (c ∷ a) t = starts_with ((c ∷ a) ++ codes "/") t
