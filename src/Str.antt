-- ===== src/Str.antt =====
-- Python's `str` methods that the program uses, on lists of code points: `strip`, `lower`,
-- `splitlines`. `lower` is that of ASCII: it is only compared with ASCII words below, in which no
-- letter is the lower case of a character outside ASCII.
use ha_cluster_state_sync.Prelude.{
  ℕ, ◌+◌, Bool, false, ◌&&◌, ◌||◌, List, [], ◌∷◌, map, Text, leb, ◌==◌, if◌then◌else◌,
}

-- `str.isspace`
unfoldable pub is_space : ℕ → Bool
is_space c =
    (leb 9 c && leb c 13)
    || (leb 28 c && leb c 32)
    || c == 133
    || c == 160
    || c == 5760
    || (leb 8192 c && leb c 8202)
    || c == 8232
    || c == 8233
    || c == 8239
    || c == 8287
    || c == 12288

unfoldable pub lstrip : Text → Text
unfolding is_space
lstrip [] = []
lstrip (c ∷ s) = let rest = lstrip s in if is_space c then rest else c ∷ s

-- A character in front of text that is stripped on the right: blank only if nothing is left.
abbrev pub rstrip_cons : ℕ → Text → Text
rstrip_cons c [] = if is_space c then [] else c ∷ []
rstrip_cons c (d ∷ s) = c ∷ d ∷ s

unfoldable pub rstrip : Text → Text
unfolding is_space
rstrip [] = []
rstrip (c ∷ s) = rstrip_cons c (rstrip s)

unfoldable pub strip : Text → Text
unfolding lstrip rstrip
strip s = lstrip (rstrip s)

unfoldable pub lower : Text → Text
lower s = map (λ c. if leb b'A' c && leb c b'Z' then c + 32 else c) s

-- The characters at which `splitlines` breaks; `\r\n` is one break.
unfoldable pub is_break : ℕ → Bool
is_break c = (leb 10 c && leb c 13) || (leb 28 c && leb c 30) || c == 133 || c == 8232 || c == 8233

abbrev pub add_to_line : ℕ → List Text → List Text
add_to_line c [] = (c ∷ []) ∷ []
add_to_line c (l ∷ ls) = (c ∷ l) ∷ ls

-- `after_cr`: the character before was `\r`, so a `\n` here ends no further line.
unfoldable pub lines_from : Bool → Text → List Text
unfolding is_break
lines_from after_cr [] = []
lines_from after_cr (c ∷ s) =
    let rest = lines_from (c == 13) s in
    if after_cr && c == 10 then rest else if is_break c then [] ∷ rest else add_to_line c rest

unfoldable pub splitlines : Text → List Text
unfolding lines_from
splitlines s = lines_from false s
