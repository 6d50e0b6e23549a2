-- ===== src/Hold/RoundTrip.antt =====
-- hold.py: the readers of a hold on the texts that `hold_body` writes.
use ha_cluster_state_sync.Prelude.{
  ◌≡◌, ◌≢◌, refl, ap, ◌∙◌, false, Option, none, some, List, [], ◌∷◌, ◌++◌, Text, codes, All, arith,
  starts_with,
}
use ha_cluster_state_sync.Str.{strip, splitlines, is_break}
use ha_cluster_state_sync.Hold.Format.{
  join_lines, line_of, reason_lines, hold_body, hold_origin, hold_deadline, reason_of, first_field,
  human_lines, origin_prefix, expires_prefix, is_structured,
}
use ha_cluster_state_sync.Hold.Lines.{
  IsOneLine, IsWordOrNone, splitlines-join_lines, join_lines-append, strip-origin, strip-expires,
  strip-value, or_none-word,
}

pub All-append {ℓ κ} :
    {A : Type ℓ} (P : A → Type κ) (xs ys : List A) → All P xs → All P ys → All P (xs ++ ys)
All-append P [] ys h k = k
All-append P (x ∷ xs) ys h k = (h.0, All-append P xs ys h.1 k)

-- The lines of a reason: text of at least one character, with no blank at its ends, in which no
-- line reads as an `origin:` or an `expires:` line.
pub record IsReason (first : Text) (more : List Text) : Type 0 where
  pub one_line : All IsOneLine (first ∷ more)
  pub unstructured : All (λ line. is_structured line ≡ false) (first ∷ more)
  pub stripped : strip (join_lines (first ∷ more)) ≡ join_lines (first ∷ more)
  pub nonempty : join_lines (first ∷ more) ≢ []

abbrev pub fields : Option Text → Option Text → List Text
fields origin expires = line_of origin_prefix origin ++ line_of expires_prefix expires

pub line_of-word :
    (prefix word : Text) → word ≢ [] → line_of prefix (some word) ≡ (prefix ++ (b' ' ∷ word)) ∷ []
line_of-word prefix [] h = absurd (h refl)
line_of-word prefix (c ∷ word) h = refl

reason_lines-nonempty : (t : Text) → t ≢ [] → reason_lines t ≡ t ∷ []
reason_lines-nonempty [] h = absurd (h refl)
reason_lines-nonempty (c ∷ t) h = refl

origin-IsOneLine : (word : Text) → IsOneLine word → IsOneLine (codes "origin: " ++ word)
unfolding is_break
origin-IsOneLine word h =
    All-append (λ c. is_break c ≡ false) (codes "origin: ") word (ground arith) h

expires-IsOneLine : (word : Text) → IsOneLine word → IsOneLine (codes "expires: " ++ word)
unfolding is_break
expires-IsOneLine word h =
    All-append (λ c. is_break c ≡ false) (codes "expires: ") word (ground arith) h

fields-IsOneLine :
    (o e : Option Text) → IsWordOrNone o → IsWordOrNone e → All IsOneLine (fields o e)
fields-IsOneLine none none ho he = tt
fields-IsOneLine none (some e) ho he =
    rw (line_of-word expires_prefix e he.nonempty) (expires-IsOneLine e he.one_line, tt)
fields-IsOneLine (some o) none ho he =
    rw (line_of-word origin_prefix o ho.nonempty) (origin-IsOneLine o ho.one_line, tt)
fields-IsOneLine (some o) (some e) ho he =
    rw (line_of-word origin_prefix o ho.nonempty, line_of-word expires_prefix e he.nonempty)
      (origin-IsOneLine o ho.one_line, (expires-IsOneLine e he.one_line, tt))

pub hold_body-lines :
    (first : Text) (more : List Text) (o e : Option Text)
    → IsReason first more
    → IsWordOrNone o
    → IsWordOrNone e
    → splitlines (hold_body (join_lines (first ∷ more)) o e) ≡ (first ∷ more) ++ fields o e
unfolding hold_body
hold_body-lines first more o e r ho he =
    rw
      (
        r.stripped,
        reason_lines-nonempty (join_lines (first ∷ more)) r.nonempty,
        join_lines-append first more (fields o e),
      )
      (splitlines-join_lines first (more ++ fields o e)
        (All-append IsOneLine (first ∷ more) (fields o e) r.one_line (fields-IsOneLine o e ho he)))

first_field-origin :
    (o e : Option Text)
    → IsWordOrNone o
    → IsWordOrNone e
    → first_field origin_prefix (fields o e) ≡ o
unfolding first_field starts_with
first_field-origin none none ho he = refl
first_field-origin none (some e) ho he =
    rw (line_of-word expires_prefix e he.nonempty, strip-expires e he) refl
first_field-origin (some o) e ho he =
    rw (line_of-word origin_prefix o ho.nonempty, strip-origin o ho, strip-value o ho)
      (or_none-word o ho.nonempty)

first_field-expires :
    (o e : Option Text)
    → IsWordOrNone o
    → IsWordOrNone e
    → first_field expires_prefix (fields o e) ≡ e
unfolding first_field starts_with
first_field-expires none none ho he = refl
first_field-expires none (some e) ho he =
    rw (line_of-word expires_prefix e he.nonempty, strip-expires e he, strip-value e he)
      (or_none-word e he.nonempty)
first_field-expires (some o) none ho he =
    rw (line_of-word origin_prefix o ho.nonempty, strip-origin o ho) refl
first_field-expires (some o) (some e) ho he =
    rw
      (
        line_of-word origin_prefix o ho.nonempty,
        line_of-word expires_prefix e he.nonempty,
        strip-origin o ho,
        strip-expires e he,
        strip-value e he,
      )
      (or_none-word e he.nonempty)

human_lines-fields :
    (o e : Option Text) → IsWordOrNone o → IsWordOrNone e → human_lines (fields o e) ≡ []
unfolding human_lines starts_with
human_lines-fields none none ho he = refl
human_lines-fields none (some e) ho he =
    rw (line_of-word expires_prefix e he.nonempty, strip-expires e he) refl
human_lines-fields (some o) none ho he =
    rw (line_of-word origin_prefix o ho.nonempty, strip-origin o ho) refl
human_lines-fields (some o) (some e) ho he =
    rw
      (
        line_of-word origin_prefix o ho.nonempty,
        line_of-word expires_prefix e he.nonempty,
        strip-origin o ho,
        strip-expires e he,
      )
      refl

human_lines-append :
    (lines more : List Text)
    → All (λ line. is_structured line ≡ false) lines
    → human_lines more ≡ []
    → human_lines (lines ++ more) ≡ lines
unfolding human_lines
human_lines-append [] more h e = e
human_lines-append (line ∷ lines) more h e = rw (h.0, human_lines-append lines more h.1 e) refl

skip-origin :
    (lines more : List Text)
    → All (λ line. is_structured line ≡ false) lines
    → first_field origin_prefix (lines ++ more) ≡ first_field origin_prefix more
unfolding first_field
skip-origin [] more h = refl
skip-origin (line ∷ lines) more h = let before = h.0 in ground (arith, skip-origin lines more h.1)

skip-expires :
    (lines more : List Text)
    → All (λ line. is_structured line ≡ false) lines
    → first_field expires_prefix (lines ++ more) ≡ first_field expires_prefix more
unfolding first_field
skip-expires [] more h = refl
skip-expires (line ∷ lines) more h = let before = h.0 in ground (arith, skip-expires lines more h.1)

-- What `hold_body` writes, the three readers of hold.py read back: the origin, the deadline and the
-- reason come out as they went in, whether or not there is an origin and a deadline. The reason is
-- any text of one or more lines with no blank at its ends, none of which reads as an `origin:` or
-- `expires:` line; the origin and the deadline are single lines, not empty, with no blank at their
-- ends.
pub hold_body-round_trip :
    (first : Text) (more : List Text) (o e : Option Text)
    → IsReason first more
    → IsWordOrNone o
    → IsWordOrNone e
    → (hold_origin (hold_body (join_lines (first ∷ more)) o e) ≡ o)
      × (hold_deadline (hold_body (join_lines (first ∷ more)) o e) ≡ e)
      × (reason_of (hold_body (join_lines (first ∷ more)) o e) ≡ join_lines (first ∷ more))
unfolding hold_origin hold_deadline reason_of
hold_body-round_trip first more o e r ho he = rw (hold_body-lines first more o e r ho he) (
  skip-origin (first ∷ more) (fields o e) r.unstructured ∙ first_field-origin o e ho he,
  skip-expires (first ∷ more) (fields o e) r.unstructured ∙ first_field-expires o e ho he,
  ap (λ (ls : List Text). strip (join_lines ls))
        (human_lines-append (first ∷ more) (fields o e) r.unstructured
          (human_lines-fields o e ho he))
      ∙ r.stripped,
)
