-- ===== src/Resp/Encoding.antt =====
-- resp.py: `_encode_command`, and how its commands are read.
use ha_cluster_state_sync.Prelude.{
  ℤ, pos, ℕ, suc, ◌+◌, ◌≡◌, refl, sym, ap, ◌∙◌, false, Option, some, List, [], ◌∷◌, ◌++◌, Text,
  codes, length, take, drop, ltb, ◌==◌, arith, append_assoc, All, length-append,
}
use ha_cluster_state_sync.Resp.Reader.{
  Bytes, Replies, text, array, item, stop, got, and_then, find_crlf, whole, items, body_of,
  with_byte, read_reply,
}

abbrev crlf : Bytes
crlf = codes "\r\n"

-- `%d` in bytes and `str.encode` are Python's.
module _ (decimal : ℕ → Bytes) (encode : Text → Bytes) where
  abbrev pub encode_arg : Text → Bytes → Bytes
  encode_arg arg rest =
      b'$' ∷ (decimal (length (encode arg)) ++ (crlf ++ (encode arg ++ (crlf ++ rest))))

  -- The arguments in front of what follows.
  unfoldable pub encode_args : List Text → Bytes → Bytes
  encode_args [] rest = rest
  encode_args (arg ∷ args) rest = encode_arg arg (encode_args args rest)

  unfoldable pub encode_command : List Text → Bytes
  unfolding encode_args
  encode_command args = b'*' ∷ (decimal (length args) ++ (crlf ++ encode_args args []))

find_crlf-line :
    (line rest : Bytes)
    → All (λ c. (c == b'\r') ≡ false) line
    → find_crlf (line ++ (crlf ++ rest)) ≡ some (line, rest)
unfolding find_crlf
find_crlf-line [] rest h = refl
find_crlf-line (a ∷ []) rest h = let plain = h.0 in ground arith
find_crlf-line (a ∷ b ∷ line) rest h =
    let plain = h.0 in ground (arith, find_crlf-line (b ∷ line) rest h.1)

body_of-crlf : (s : Bytes) → body_of (s ++ crlf) ≡ some s
body_of-crlf [] = refl
body_of-crlf (a ∷ []) = refl
body_of-crlf (a ∷ b ∷ []) = ap (with_byte a) (body_of-crlf (b ∷ []))
body_of-crlf (a ∷ b ∷ c ∷ s) = ap (with_byte a) (body_of-crlf (b ∷ c ∷ s))

take-length : (s t : Bytes) → take (length s) (s ++ t) ≡ s
take-length [] t = refl
take-length (a ∷ s) t = ap (λ (l : Bytes). a ∷ l) (take-length s t)

drop-length : (s t : Bytes) → drop (length s) (s ++ t) ≡ t
drop-length [] t = refl
drop-length (a ∷ s) t = drop-length s t

exactly-length : (s rest : Bytes) → whole.exactly (length s) (s ++ rest) ≡ got s rest
exactly-length s rest =
    let enough : ltb (length (s ++ rest)) (length s) ≡ false =
      ground (arith, length-append s rest) in
    rw (enough, take-length s rest, drop-length s rest) refl

-- `exactly` takes a body and the line end after it.
exactly-body :
    (s rest : Bytes) → whole.exactly (length s + 2) (s ++ (crlf ++ rest)) ≡ got (s ++ crlf) rest
exactly-body s rest =
    ap (λ (n : ℕ). whole.exactly n (s ++ (crlf ++ rest))) (sym (length-append s crlf))
    ∙ (ap (whole.exactly (length (s ++ crlf))) (sym (append_assoc s crlf rest))
        ∙ exactly-length (s ++ crlf) rest)

-- What the code relies on: `int` reads what `%d` writes, which has no carriage return, and UTF-8 is
-- decoded to what was encoded.
pub record PythonLaws (int : Bytes → Option ℤ) (decode : Bytes → Option Text) (decimal : ℕ → Bytes)
    (encode : Text → Bytes) : Type 0 where
  pub int-decimal : (n : ℕ) → int (decimal n) ≡ some (pos n)
  pub decimal-plain : (n : ℕ) → All (λ c. (c == b'\r') ≡ false) (decimal n)
  pub decode-encode : (t : Text) → decode (encode t) ≡ some t

abbrev pub texts : List Text → Replies
texts [] = stop
texts (t ∷ ts) = item (text t) (texts ts)

module _ (int : Bytes → Option ℤ) (decode : Bytes → Option Text) (decimal : ℕ → Bytes)
    (encode : Text → Bytes) (laws : PythonLaws int decode decimal encode) where
  read_arg :
      (fuel : ℕ) (arg : Text) (rest : Bytes)
      → read_reply int decode whole (suc fuel) (encode_arg decimal encode arg rest)
        ≡ got (text arg) rest
  unfolding read_reply
  read_arg fuel arg rest =
      let body = encode arg in
      let line : find_crlf (encode_arg decimal encode arg rest)
          ≡ some (b'$' ∷ decimal (length body), body ++ (crlf ++ rest)) =
        find_crlf-line (b'$' ∷ decimal (length body)) (body ++ (crlf ++ rest))
          (refl, laws.decimal-plain (length body)) in
      rw
        (
          line,
          laws.int-decimal (length body),
          exactly-body body rest,
          body_of-crlf body,
          laws.decode-encode arg,
        )
        refl

  read_args :
      (fuel : ℕ) (args : List Text) (rest : Bytes)
      → items int decode whole
          (read_reply int decode whole (suc fuel))
          (length args)
          (encode_args decimal encode args rest)
        ≡ got (texts args) rest
  unfolding encode_args
  read_args fuel [] rest = refl
  read_args fuel (arg ∷ args) rest =
      rw (read_arg fuel arg (encode_args decimal encode args rest), read_args fuel args rest) refl

  -- What `_encode_command` writes is read as one array of exactly the arguments, with nothing left,
  -- whatever they contain, line ends included.
  pub read_reply-encode_command :
      (fuel : ℕ) (args : List Text)
      → read_reply int decode whole (suc (suc fuel)) (encode_command decimal encode args)
        ≡ got (array (texts args)) []
  unfolding read_reply encode_command
  read_reply-encode_command fuel args =
      let line : find_crlf (encode_command decimal encode args)
          ≡ some (b'*' ∷ decimal (length args), encode_args decimal encode args []) =
        find_crlf-line (b'*' ∷ decimal (length args)) (encode_args decimal encode args [])
          (refl, laws.decimal-plain (length args)) in
      rw (line, laws.int-decimal (length args))
        (ap (and_then (λ rs. got (array rs))) (read_args fuel args []))
