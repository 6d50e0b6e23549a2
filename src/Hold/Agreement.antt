-- ===== src/Hold/Agreement.antt =====
-- cluster_promoter.py: its parser of a hold on the texts that `hold.hold_body` writes.
use ha_cluster_state_sync.Prelude.{
  ◌≡◌, refl, ◌∙◌, ap, false, Option, none, some, List, [], ◌∷◌, ◌++◌, Text, codes, All, ℕ,
  starts_with,
}
use ha_cluster_state_sync.Str.{strip, lower}
use ha_cluster_state_sync.Promoter.Holds.{
  hold_origin, origin_in, deadline_in, text_is_expired, past,
}
use ha_cluster_state_sync.Hold.Format.{join_lines, hold_body, origin_prefix, expires_prefix}
use ha_cluster_state_sync.Hold.Lines.{
  IsWordOrNone, strip-origin, strip-expires, strip-value, or_none-word,
}
use ha_cluster_state_sync.Hold.RoundTrip.{IsReason, fields, line_of-word, hold_body-lines}

-- A line that the promoter's tests, which look at the lower case, do not take for a field.
pub record IsHuman (line : Text) : Type 0 where
  pub no_origin : starts_with (codes "origin:") (lower (strip line)) ≡ false
  pub no_deadline : starts_with (codes "expires:") (lower line) ≡ false

skip-origin :
    (lines more : List Text) → All IsHuman lines → origin_in (lines ++ more) ≡ origin_in more
unfolding origin_in
skip-origin [] more h = refl
skip-origin (line ∷ lines) more h = rw (h.0.no_origin, skip-origin lines more h.1) refl

skip-deadline :
    (fromisoformat : Text → Option ℕ) (lines more : List Text)
    → All IsHuman lines
    → deadline_in fromisoformat (lines ++ more) ≡ deadline_in fromisoformat more
unfolding deadline_in
skip-deadline f [] more h = refl
skip-deadline f (line ∷ lines) more h = rw (h.0.no_deadline, skip-deadline f lines more h.1) refl

origin_in-fields :
    (o e : Option Text) → IsWordOrNone o → IsWordOrNone e → origin_in (fields o e) ≡ o
unfolding origin_in starts_with lower
origin_in-fields none none ho he = refl
origin_in-fields none (some e) ho he =
    rw (line_of-word expires_prefix e he.nonempty, strip-expires e he) refl
origin_in-fields (some o) e ho he =
    rw (line_of-word origin_prefix o ho.nonempty, strip-origin o ho, strip-value o ho)
      (or_none-word o ho.nonempty)

abbrev pub read_by : (Text → Option ℕ) → Option Text → Option ℕ
read_by fromisoformat none = none
read_by fromisoformat (some t) = fromisoformat t

deadline_in-fields :
    (f : Text → Option ℕ) (o e : Option Text)
    → IsWordOrNone o
    → IsWordOrNone e
    → deadline_in f (fields o e) ≡ read_by f e
unfolding deadline_in starts_with lower
deadline_in-fields f none none ho he = refl
deadline_in-fields f none (some e) ho he =
    rw (line_of-word expires_prefix e he.nonempty, strip-value e he) refl
deadline_in-fields f (some o) none ho he = rw (line_of-word origin_prefix o ho.nonempty) refl
deadline_in-fields f (some o) (some e) ho he =
    rw
      (
        line_of-word origin_prefix o ho.nonempty,
        line_of-word expires_prefix e he.nonempty,
        strip-value e he,
      )
      refl

-- The promoter reads a text that `hold_body` wrote as it was meant: it finds the origin that was
-- given, and takes the hold for expired exactly when the given deadline is a date that is past. The
-- reason is as in the round trip, and moreover has no line that begins with `origin:` or
-- `expires:` in any mixture of cases.
pub hold_body-agreement :
    (fromisoformat : Text → Option ℕ) (now : ℕ) (first : Text) (more : List Text)
    (o e : Option Text)
    → IsReason first more
    → All IsHuman (first ∷ more)
    → IsWordOrNone o
    → IsWordOrNone e
    → (hold_origin (hold_body (join_lines (first ∷ more)) o e) ≡ o)
      × (text_is_expired fromisoformat now (hold_body (join_lines (first ∷ more)) o e)
          ≡ past (read_by fromisoformat e) now)
unfolding hold_origin text_is_expired
hold_body-agreement f now first more o e r human ho he =
    rw (hold_body-lines first more o e r ho he) (
      skip-origin (first ∷ more) (fields o e) human ∙ origin_in-fields o e ho he,
      ap (λ (d : Option ℕ). past d now)
          (skip-deadline f (first ∷ more) (fields o e) human ∙ deadline_in-fields f o e ho he),
    )
