-- ===== src/Hold/Format.antt =====
-- hold.py: the text of a hold, `hold_body`, `hold_origin`, `hold_deadline`, `reason_of`.
use ha_cluster_state_sync.Prelude.{
  Bool, not, ◌||◌, Option, none, some, List, [], ◌∷◌, ◌++◌, Text, codes, starts_with, length, drop,
  if◌then◌else◌,
}
use ha_cluster_state_sync.Str.{strip, splitlines}

abbrev pub origin_prefix : Text
origin_prefix = codes "origin:"

abbrev pub expires_prefix : Text
expires_prefix = codes "expires:"

-- `"\n".join(lines)`
unfoldable pub join_lines : List Text → Text
join_lines [] = []
join_lines (l ∷ []) = l
join_lines (l ∷ m ∷ ms) = l ++ (b'\n' ∷ join_lines (m ∷ ms))

-- An empty text is as good as none.
abbrev pub line_of : Text → Option Text → List Text
line_of prefix none = []
line_of prefix (some []) = []
line_of prefix (some (c ∷ t)) = (prefix ++ (b' ' ∷ c ∷ t)) ∷ []

abbrev pub reason_lines : Text → List Text
reason_lines [] = []
reason_lines (c ∷ t) = (c ∷ t) ∷ []

unfoldable pub hold_body : Text → Option Text → Option Text → Text
hold_body reason origin expires =
    join_lines (
      reason_lines (strip reason)
      ++ (line_of origin_prefix origin ++ line_of expires_prefix expires))
    ++ codes "\n"

-- `value or None`
abbrev pub or_none : Text → Option Text
or_none [] = none
or_none (c ∷ t) = some (c ∷ t)

-- What follows the prefix on the first line that has it.
unfoldable pub first_field : Text → List Text → Option Text
first_field prefix [] = none
first_field prefix (line ∷ lines) =
    let rest = first_field prefix lines in
    if starts_with prefix (strip line)
    then or_none (strip (drop (length prefix) (strip line)))
    else rest

unfoldable pub hold_origin : Text → Option Text
unfolding first_field
hold_origin text = first_field origin_prefix (splitlines text)

unfoldable pub hold_deadline : Text → Option Text
unfolding first_field
hold_deadline text = first_field expires_prefix (splitlines text)

abbrev pub is_structured : Text → Bool
is_structured line =
    starts_with origin_prefix (strip line) || starts_with expires_prefix (strip line)

unfoldable pub human_lines : List Text → List Text
human_lines [] = []
human_lines (line ∷ lines) =
    let rest = human_lines lines in if not (is_structured line) then line ∷ rest else rest

unfoldable pub reason_of : Text → Text
unfolding human_lines join_lines
reason_of text = strip (join_lines (human_lines (splitlines text)))
