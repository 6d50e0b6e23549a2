-- ===== src/Resp/Chunks.antt =====
-- resp.py: a connection whose bytes come in chunks against all the bytes at once.
use ha_cluster_state_sync.Prelude.{
  ℤ, pos, negsuc, ℕ, zero, suc, ◌+◌, ◌≤◌, ◌≡◌, refl, ap, ◌∙◌, inl, inr, Bool, true, false, Option,
  none, some, List, [], ◌∷◌, ◌++◌, Text, length, take, drop, ltb, ◌==◌, if◌then◌else◌, arith,
  append-nil, append_assoc, length-append, Bool-cases, Option-cases,
}
use ha_cluster_state_sync.Resp.Reader.{
  Bytes, RespError, Reply, item, array, number, not_a_number, or_failed, Outcome, got, failed,
  and_then, Conn, find_crlf, line_in, read_line, read_exactly, cut, split, whole, bulk, items,
  elements, reply_of, read_reply, as_text, as_error, as_number, as_body,
}

abbrev pub flatten : List (ℕ × Bytes) → Bytes
flatten [] = []
flatten ((c, chunk) ∷ chunks) = (c ∷ chunk) ++ flatten chunks

-- All the bytes that are still to be read.
abbrev pub bytes : Conn → Bytes
bytes c = c.buffer ++ flatten c.chunks

abbrev pub seen : {A : Type 0} → Outcome A Conn → Outcome A Bytes
seen (got a c) = got a (bytes c)
seen (failed e) = failed e

find_crlf-append :
    (s t : Bytes) (line rest : Bytes)
    → find_crlf s ≡ some (line, rest)
    → find_crlf (s ++ t) ≡ some (line, rest ++ t)
unfolding find_crlf
find_crlf-append [] t line rest h = cc
find_crlf-append (a ∷ []) t line rest h = cc
find_crlf-append (a ∷ b ∷ s) t line rest h = elim (Option-cases (find_crlf (b ∷ s))) [
  | inl absent ↦ ground arith
  | inr ((l, r), there) ↦ ground (arith, find_crlf-append (b ∷ s) t l r there)
]

read_line-seen :
    (buffer : Bytes) (chunks : List (ℕ × Bytes))
    → seen (read_line buffer chunks) ≡ line_in (find_crlf (buffer ++ flatten chunks))
unfolding read_line
read_line-seen buffer [] = elim (Option-cases (find_crlf buffer)) [
  | inl absent ↦ rw (append-nil buffer, absent) refl
  | inr ((l, r), there) ↦ rw (append-nil buffer, there, append-nil r) refl
]
read_line-seen buffer ((c, chunk) ∷ chunks) = elim (Option-cases (find_crlf buffer)) [
  | inl absent ↦ rw absent (
      read_line-seen (buffer ++ (c ∷ chunk)) chunks
      ∙ ap (λ (s : Bytes). line_in (find_crlf s))
          (append_assoc buffer (c ∷ chunk) (flatten chunks)))
  | inr ((l, r), there) ↦
      rw (there, find_crlf-append buffer ((c ∷ chunk) ++ flatten chunks) l r there) refl
]

take-append : (n : ℕ) (s t : Bytes) → n ≤ length s → take n (s ++ t) ≡ take n s
take-append zero s t h = refl
take-append (suc n) [] t h = absurd (omega arith)
take-append (suc n) (a ∷ s) t h = ap (λ (l : Bytes). a ∷ l) (take-append n s t (omega arith))

drop-append : (n : ℕ) (s t : Bytes) → n ≤ length s → drop n (s ++ t) ≡ drop n s ++ t
drop-append zero s t h = refl
drop-append (suc n) [] t h = absurd (omega arith)
drop-append (suc n) (a ∷ s) t h = drop-append n s t (omega arith)

cut-seen :
    (n : ℕ) (buffer : Bytes) (chunks : List (ℕ × Bytes))
    → ltb (length buffer) n ≡ false
    → seen (cut n buffer chunks) ≡ whole.exactly n (buffer ++ flatten chunks)
cut-seen n buffer chunks enough =
    let fits : n ≤ length buffer = ground arith in
    ground (
      arith,
      length-append buffer (flatten chunks),
      take-append n buffer (flatten chunks) fits,
      drop-append n buffer (flatten chunks) fits,
    )

read_exactly-seen :
    (n : ℕ) (buffer : Bytes) (chunks : List (ℕ × Bytes))
    → seen (read_exactly n buffer chunks) ≡ whole.exactly n (buffer ++ flatten chunks)
unfolding read_exactly
read_exactly-seen n buffer [] = elim (Bool-cases (ltb (length buffer) n)) [
  | inl short ↦ rw (append-nil buffer, short) refl
  | inr enough ↦ rw enough (cut-seen n buffer [] enough)
]
read_exactly-seen n buffer ((c, chunk) ∷ chunks) = elim (Bool-cases (ltb (length buffer) n)) [
  | inl short ↦ rw short (
      read_exactly-seen n (buffer ++ (c ∷ chunk)) chunks
      ∙ ap (λ (s : Bytes). whole.exactly n s) (append_assoc buffer (c ∷ chunk) (flatten chunks)))
  | inr enough ↦ rw enough (cut-seen n buffer ((c, chunk) ∷ chunks) enough)
]

seen-and_then :
    {A B : Type 0} (f : A → Conn → Outcome B Conn) (g : A → Bytes → Outcome B Bytes)
    → ((a : A) (c : Conn) → seen (f a c) ≡ g a (bytes c))
    → (o : Outcome A Conn) → seen (and_then f o) ≡ and_then g (seen o)
seen-and_then f g h (got a c) = h a c
seen-and_then f g h (failed e) = refl

or_failed-seen :
    {A : Type 0} (e : RespError) (o : Option A) (c : Conn)
    → seen (or_failed e o c) ≡ or_failed e o (bytes c)
or_failed-seen e none c = refl
or_failed-seen e (some a) c = refl

seen-if :
    {A : Type 0} (b : Bool) (x y : Outcome A Conn) (x' y' : Outcome A Bytes)
    → seen x ≡ x'
    → seen y ≡ y'
    → seen (if b then x else y) ≡ (if b then x' else y')
seen-if true x y x' y' h k = h
seen-if false x y x' y' h k = k

module _ (int : Bytes → Option ℤ) (decode : Bytes → Option Text) where
  as_body-seen :
      (raw : Bytes) (c : Conn)
      → seen (as_body int decode split raw c) ≡ as_body int decode whole raw (bytes c)
  as_body-seen raw c = ground arith

  as_text-seen :
      (raw : Bytes) (c : Conn)
      → seen (as_text int decode split raw c) ≡ as_text int decode whole raw (bytes c)
  as_text-seen raw c = ground arith

  as_error-seen :
      (raw : Bytes) (c : Conn)
      → seen (as_error int decode split raw c) ≡ as_error int decode whole raw (bytes c)
  as_error-seen raw c = ground arith

  counted-seen :
      (f : ℤ → Conn → Outcome Reply Conn) (g : ℤ → Bytes → Outcome Reply Bytes)
      → ((n : ℤ) (c : Conn) → seen (f n c) ≡ g n (bytes c))
      → (raw : Bytes) (c : Conn)
      → seen (and_then f (as_number int decode split raw c))
        ≡ and_then g (as_number int decode whole raw (bytes c))
  counted-seen f g h raw c =
      seen-and_then f g h (as_number int decode split raw c)
      ∙ ap (and_then g) (or_failed-seen not_a_number (int raw) c)

  bulk-seen :
      (n : ℤ) (c : Conn) → seen (bulk int decode split n c) ≡ bulk int decode whole n (bytes c)
  bulk-seen (negsuc n) c = refl
  bulk-seen (pos n) c =
      seen-and_then (as_body int decode split) (as_body int decode whole) as_body-seen
        (read_exactly (n + 2) c.buffer c.chunks)
      ∙ ap (and_then (as_body int decode whole)) (read_exactly-seen (n + 2) c.buffer c.chunks)

  module _ (read : Conn → Outcome Reply Conn) (read' : Bytes → Outcome Reply Bytes)
      (same : (c : Conn) → seen (read c) ≡ read' (bytes c)) where
    items-seen :
        (n : ℕ) (c : Conn)
        → seen (items int decode split read n c) ≡ items int decode whole read' n (bytes c)
    items-seen zero c = refl
    items-seen (suc n) c =
        seen-and_then (λ r c. and_then (λ rs. got (item r rs)) (items int decode split read n c))
          (λ r s. and_then (λ rs. got (item r rs)) (items int decode whole read' n s))
          (λ r c.
            seen-and_then (λ rs. got (item r rs)) (λ rs. got (item r rs)) (λ rs c. refl)
              (items int decode split read n c)
            ∙ ap (and_then (λ rs. got (item r rs))) (items-seen n c))
          (read c)
        ∙ ap (and_then (λ r s. and_then (λ rs. got (item r rs)) (items int decode whole read' n s)))
            (same c)

    elements-seen :
        (n : ℤ) (c : Conn)
        → seen (elements int decode split read n c) ≡ elements int decode whole read' n (bytes c)
    elements-seen (negsuc n) c = refl
    elements-seen (pos n) c =
        seen-and_then (λ rs. got (array rs)) (λ rs. got (array rs)) (λ rs c. refl)
          (items int decode split read n c)
        ∙ ap (and_then (λ rs. got (array rs))) (items-seen n c)

    reply_of-seen :
        (line : Bytes) (c : Conn)
        → seen (reply_of int decode split read line c)
          ≡ reply_of int decode whole read' line (bytes c)
    reply_of-seen [] c = refl
    reply_of-seen (kind ∷ payload) c = seen-if (kind == b'+') _ _ _ _ (as_text-seen payload c) (
        seen-if (kind == b'-') _ _ _ _ (as_error-seen payload c) (
          seen-if (kind == b':') _ _ _ _
            (counted-seen (λ n. got (number n)) (λ n. got (number n)) (λ n c. refl) payload c)
            (seen-if (kind == b'$') _ _ _ _
              (counted-seen (bulk int decode split) (bulk int decode whole) bulk-seen payload c)
              (seen-if (kind == b'*') _ _ _ _
                (counted-seen (elements int decode split read) (elements int decode whole read')
                  elements-seen payload c)
                refl))))

  -- The reader is the reading of all the bytes at once: what `read_reply` answers on a connection,
  -- value or error, and what it leaves, is what the same reader answers on the bytes of the buffer
  -- and of all the chunks in a row, however they were cut, at any depth of arrays allowed.
  pub read_reply-seen :
      (fuel : ℕ) (c : Conn)
      → seen (read_reply int decode split fuel c) ≡ read_reply int decode whole fuel (bytes c)
  unfolding read_reply
  read_reply-seen zero c = refl
  read_reply-seen (suc fuel) c =
      let next = read_reply-seen fuel in
      seen-and_then (reply_of int decode split (read_reply int decode split fuel))
        (reply_of int decode whole (read_reply int decode whole fuel))
        (reply_of-seen (read_reply int decode split fuel) (read_reply int decode whole fuel) next)
        (read_line c.buffer c.chunks)
      ∙ ap (and_then (reply_of int decode whole (read_reply int decode whole fuel)))
          (read_line-seen c.buffer c.chunks)
