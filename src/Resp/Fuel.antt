-- ===== src/Resp/Fuel.antt =====
-- resp.py: the fuel of `read_reply` against the number of bytes that are still to be read.
use ha_cluster_state_sync.Prelude.{
  ℤ, pos, negsuc, ℕ, zero, suc, ◌+◌, ◌-◌, ◌≤◌, ◌<◌, ◌≡◌, ◌≢◌, refl, sym, ap, ◌∙◌, inl, inr, Bool,
  true, false, Option, none, some, [], ◌∷◌, Text, length, take, drop, ltb, ◌==◌, if◌then◌else◌,
  arith, Option-cases,
}
use ha_cluster_state_sync.Resp.Reader.{
  Bytes, RespError, closed, too_deep, Reply, item, array, number, Outcome, got, failed, and_then,
  Conn, find_crlf, split, whole, bulk, items, elements, reply_of, read_reply, as_text, as_error,
  as_number, as_body, or_failed, not_a_number,
}
use ha_cluster_state_sync.Resp.Chunks.{bytes, seen, read_reply-seen}

-- A value that leaves at most `n` bytes, or an error that is not the model's own.
abbrev Fine : {A : Type 0} → ℕ → Outcome A Bytes → Type 0
Fine n (got a s) = length s ≤ n
Fine n (failed e) = e ≢ too_deep

and_then-Fine :
    {A B : Type 0} (n : ℕ) (f : A → Bytes → Outcome B Bytes)
    → ((a : A) (s : Bytes) → length s ≤ n → Fine n (f a s))
    → (o : Outcome A Bytes) → Fine n o
    → Fine n (and_then f o)
and_then-Fine n f h (got a s) fine = h a s fine
and_then-Fine n f h (failed e) fine = fine

or_failed-Fine :
    {A : Type 0} (n : ℕ) (e : RespError) (o : Option A) (s : Bytes)
    → e ≢ too_deep
    → length s ≤ n
    → Fine n (or_failed e o s)
or_failed-Fine n e none s other short = other
or_failed-Fine n e (some a) s other short = short

if-Fine :
    {A : Type 0} (n : ℕ) (b : Bool) (x y : Outcome A Bytes)
    → Fine n x
    → Fine n y
    → Fine n (if b then x else y)
if-Fine n true x y h k = h
if-Fine n false x y h k = k

find_crlf-shorter :
    (s : Bytes) (line rest : Bytes) → find_crlf s ≡ some (line, rest) → length rest + 2 ≤ length s
unfolding find_crlf
find_crlf-shorter [] line rest h = absurd (ground arith)
find_crlf-shorter (a ∷ []) line rest h = absurd (ground arith)
find_crlf-shorter (a ∷ b ∷ s) line rest h = elim (Option-cases (find_crlf (b ∷ s))) [
  | inl absent ↦ ground arith
  | inr ((l, r), there) ↦ ground (arith, find_crlf-shorter (b ∷ s) l r there)
]

length-drop_le : (n : ℕ) (s : Bytes) → length (drop n s) ≤ length s
length-drop_le zero s = omega arith
length-drop_le (suc n) [] = omega arith
length-drop_le (suc n) (a ∷ s) = omega (arith, length-drop_le n s)

module _ (int : Bytes → Option ℤ) (decode : Bytes → Option Text) (n : ℕ) where
  as_text-Fine : (raw s : Bytes) → length s ≤ n → Fine n (as_text int decode whole raw s)
  as_text-Fine raw s short = ground arith

  as_error-Fine : (raw s : Bytes) → length s ≤ n → Fine n (as_error int decode whole raw s)
  as_error-Fine raw s short = ground arith

  as_body-Fine : (raw s : Bytes) → length s ≤ n → Fine n (as_body int decode whole raw s)
  as_body-Fine raw s short = ground arith

  bulk-Fine : (k : ℤ) (s : Bytes) → length s ≤ n → Fine n (bulk int decode whole k s)
  bulk-Fine (negsuc k) s short = short
  bulk-Fine (pos k) s short =
      and_then-Fine n (as_body int decode whole) as_body-Fine (whole.exactly (k + 2) s) (
        if-Fine n (ltb (length s) (k + 2)) (failed closed) (got (take (k + 2) s) (drop (k + 2) s))
          (ground arith) (omega (arith, length-drop_le (k + 2) s)))

  counted-Fine :
      (f : ℤ → Bytes → Outcome Reply Bytes)
      → ((k : ℤ) (s : Bytes) → length s ≤ n → Fine n (f k s))
      → (raw s : Bytes) → length s ≤ n
      → Fine n (and_then f (as_number int decode whole raw s))
  counted-Fine f h raw s short =
      and_then-Fine n f h (as_number int decode whole raw s)
        (or_failed-Fine n not_a_number (int raw) s (ground arith) short)

  module _ (read : Bytes → Outcome Reply Bytes)
      (fine : (s : Bytes) → length s ≤ n → Fine n (read s)) where
    items-Fine : (k : ℕ) (s : Bytes) → length s ≤ n → Fine n (items int decode whole read k s)
    items-Fine zero s short = short
    items-Fine (suc k) s short =
        and_then-Fine n (λ r s. and_then (λ rs. got (item r rs)) (items int decode whole read k s))
          (λ r s shorter.
            and_then-Fine n (λ rs. got (item r rs)) (λ rs s left. left)
              (items int decode whole read k s) (items-Fine k s shorter))
          (read s) (fine s short)

    elements-Fine : (k : ℤ) (s : Bytes) → length s ≤ n → Fine n (elements int decode whole read k s)
    elements-Fine (negsuc k) s short = short
    elements-Fine (pos k) s short =
        and_then-Fine n (λ rs. got (array rs)) (λ rs s left. left) (items int decode whole read k s)
          (items-Fine k s short)

    reply_of-Fine : (line s : Bytes) → length s ≤ n → Fine n (reply_of int decode whole read line s)
    reply_of-Fine [] s short = ground arith
    reply_of-Fine (kind ∷ payload) s short =
        if-Fine n (kind == b'+') _ _ (as_text-Fine payload s short) (
          if-Fine n (kind == b'-') _ _ (as_error-Fine payload s short) (
            if-Fine n (kind == b':') _ _
              (counted-Fine (λ k. got (number k)) (λ k s left. left) payload s short)
              (if-Fine n (kind == b'$') _ _
                (counted-Fine (bulk int decode whole) bulk-Fine payload s short)
                (if-Fine n (kind == b'*') _ _
                  (counted-Fine (elements int decode whole read) elements-Fine payload s short)
                  (ground arith)))))

module _ (int : Bytes → Option ℤ) (decode : Bytes → Option Text) where
  weaken : {A : Type 0} (n m : ℕ) (o : Outcome A Bytes) → n ≤ m → Fine n o → Fine m o
  weaken n m o le fine = ground arith

  read_reply-Fine :
      (fuel n : ℕ) (s : Bytes)
      → n < fuel
      → length s ≤ n
      → Fine n (read_reply int decode whole fuel s)
  unfolding read_reply
  read_reply-Fine zero n s enough short = absurd (omega arith)
  read_reply-Fine (suc fuel) n s enough short = elim (Option-cases (find_crlf s)) [
    | inl absent ↦ rw absent (ground arith)
    | inr ((line, rest), there) ↦
        let left = find_crlf-shorter s line rest there in
        rw there (
          weaken (n - 1) n (reply_of int decode whole (read_reply int decode whole fuel) line rest)
            (omega arith)
            (reply_of-Fine int decode (n - 1) (read_reply int decode whole fuel)
              (λ s shorter. read_reply-Fine fuel (n - 1) s (omega arith) shorter) line rest
              (omega arith)))
  ]

  -- With fuel beyond the number of bytes that are still to be read, the reader never stops for want
  -- of fuel: it answers with a value, or with an error of the source.
  pub read_reply-enough :
      (fuel : ℕ) (c : Conn)
      → length (bytes c) < fuel
      → read_reply int decode split fuel c ≢ failed too_deep
  read_reply-enough fuel c enough stopped =
      let fine = read_reply-Fine fuel (length (bytes c)) (bytes c) enough (omega arith) in
      let e : read_reply int decode whole fuel (bytes c) ≡ failed too_deep =
        sym (read_reply-seen int decode fuel c) ∙ ap seen stopped in
      (rw e at fine) refl
