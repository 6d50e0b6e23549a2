-- ===== src/Hold/Lines.antt =====
-- What `splitlines` and `strip` make of lines that were joined: for the round trips of hold.py.
use ha_cluster_state_sync.Prelude.{
  ◌≡◌, ◌≢◌, refl, ap, ◌∙◌, false, Option, none, some, List, [], ◌∷◌, ◌++◌, Text, codes, All,
  append_assoc, arith, ◌==◌, ℕ,
}
use ha_cluster_state_sync.Str.{
  strip, lstrip, rstrip, is_space, is_break, lines_from, splitlines, rstrip_cons,
}
use ha_cluster_state_sync.Hold.Format.{join_lines, or_none}

-- No character of the line ends it.
abbrev pub IsOneLine : Text → Type 0
IsOneLine line = All (λ c. is_break c ≡ false) line

break_lem : (c : ℕ) → is_break c ≡ false → (c == b'\r') ≡ false
unfolding is_break
break_lem c h = ground arith

lines_from-line :
    (line rest : Text)
    → IsOneLine line
    → lines_from false (line ++ (b'\n' ∷ rest)) ≡ line ∷ lines_from false rest
unfolding lines_from is_break
lines_from-line [] rest h = refl
lines_from-line (c ∷ line) rest h = ground (arith, break_lem c h.0, lines_from-line line rest h.1)

-- Joined lines with a last line feed split into the lines.
pub splitlines-join_lines :
    (line : Text) (lines : List Text)
    → All IsOneLine (line ∷ lines)
    → splitlines (join_lines (line ∷ lines) ++ codes "\n") ≡ line ∷ lines
unfolding splitlines join_lines lines_from
splitlines-join_lines line [] h = lines_from-line line [] h.0
splitlines-join_lines line (next ∷ lines) h =
    ap splitlines (append_assoc line (b'\n' ∷ join_lines (next ∷ lines)) (codes "\n"))
    ∙ (lines_from-line line (join_lines (next ∷ lines) ++ codes "\n") h.0
        ∙ ap (λ (ls : List Text). line ∷ ls) (splitlines-join_lines next lines h.1))

-- To join lines that are joined already changes nothing.
pub join_lines-append :
    (line : Text) (lines more : List Text)
    → join_lines (join_lines (line ∷ lines) ∷ more) ≡ join_lines (line ∷ lines ++ more)
unfolding join_lines
join_lines-append line [] more = refl
join_lines-append line (next ∷ lines) [] =
    ap (λ (t : Text). line ++ (b'\n' ∷ t)) (join_lines-append next lines [])
join_lines-append line (next ∷ lines) (m ∷ more) =
    append_assoc line (b'\n' ∷ join_lines (next ∷ lines)) (b'\n' ∷ join_lines (m ∷ more))
    ∙ ap (λ (t : Text). line ++ (b'\n' ∷ t)) (join_lines-append next lines (m ∷ more))

-- A text of one line, not empty and with no blank at its ends.
pub record IsWord (word : Text) : Type 0 where
  pub one_line : IsOneLine word
  pub nonempty : word ≢ []
  pub left : lstrip word ≡ word
  pub right : rstrip word ≡ word

abbrev pub IsWordOrNone : Option Text → Type 0
IsWordOrNone none = Unit
IsWordOrNone (some word) = IsWord word

rstrip-cons : (c : ℕ) (s : Text) → rstrip s ≡ s → s ≢ [] → rstrip (c ∷ s) ≡ c ∷ s
unfolding rstrip
rstrip-cons c [] h nonempty = absurd (nonempty refl)
rstrip-cons c (d ∷ s) h nonempty = ap (rstrip_cons c) h

pub append-nonempty : (p s : Text) → s ≢ [] → p ++ s ≢ []
append-nonempty [] s h e = h e
append-nonempty (c ∷ p) s h e = cc

rstrip-append : (p s : Text) → rstrip s ≡ s → s ≢ [] → rstrip (p ++ s) ≡ p ++ s
rstrip-append [] s h nonempty = h
rstrip-append (c ∷ p) s h nonempty =
    rstrip-cons c (p ++ s) (rstrip-append p s h nonempty) (append-nonempty p s nonempty)

-- A line with its prefix is stripped already, and what follows the prefix strips to the word.
pub strip-origin :
    (word : Text) → IsWord word → strip (codes "origin: " ++ word) ≡ codes "origin: " ++ word
unfolding strip lstrip is_space
strip-origin word h = ap lstrip (rstrip-append (codes "origin: ") word h.right h.nonempty)

pub strip-expires :
    (word : Text) → IsWord word → strip (codes "expires: " ++ word) ≡ codes "expires: " ++ word
unfolding strip lstrip is_space
strip-expires word h = ap lstrip (rstrip-append (codes "expires: ") word h.right h.nonempty)

pub strip-value : (word : Text) → IsWord word → strip (b' ' ∷ word) ≡ word
unfolding strip lstrip is_space
strip-value word h = ap lstrip (rstrip-cons b' ' word h.right h.nonempty) ∙ unfold lstrip in h.left

pub or_none-word : (word : Text) → word ≢ [] → or_none word ≡ some word
or_none-word [] h = absurd (h refl)
or_none-word (c ∷ word) h = refl
