-- ===== src/Resp/Reader.antt =====
-- resp.py: `_read_line`, `_read_exactly`, `_fill` and `read_reply`, over any source of lines and
-- bytes: `split` is the socket, whose bytes come in chunks, `whole` all the bytes at once.
use ha_cluster_state_sync.Prelude.{
  ℕ, zero, suc, ◌+◌, ◌&&◌, Option, none, some, List, [], ◌∷◌, ◌++◌, Text, length, take, drop, ltb,
  ◌==◌, ℤ, pos, negsuc, if◌then◌else◌,
}

abbrev pub Bytes : Type 0
Bytes = List ℕ

-- `RespError`, by its cause. `too_deep` is the model's own: the fuel has run out.
pub data RespError : Type 0 where
  closed : RespError
  empty_reply : RespError
  server_error : Text → RespError
  not_a_number : RespError
  not_utf8 : RespError
  unterminated : RespError
  unsupported : RespError
  too_deep : RespError

mutual
  pub data Reply : Type 0 where
    text : Text → Reply
    number : ℤ → Reply
    nil : Reply
    array : Replies → Reply

  pub data Replies : Type 0 where
    stop : Replies
    item : Reply → Replies → Replies

-- A value with what is left of the source, or an error.
pub data Outcome (A S : Type 0) : Type 0 where
  got : A → S → Outcome A S
  failed : RespError → Outcome A S

abbrev pub and_then : {A B S : Type 0} → (A → S → Outcome B S) → Outcome A S → Outcome B S
and_then f (got a s) = f a s
and_then f (failed e) = failed e

pub record Source (S : Type 0) : Type 0 where
  pub line : S → Outcome Bytes S
  pub exactly : ℕ → S → Outcome Bytes S

-- `_buffer`, and what `recv` will return: chunks of at least one byte, then `b""`.
pub record Conn : Type 0 where
  pub buffer : Bytes
  pub chunks : List (ℕ × Bytes)

abbrev pub push : ℕ → Option (Bytes × Bytes) → Option (Bytes × Bytes)
push c none = none
push c (some (line, rest)) = some (c ∷ line, rest)

-- `find(b"\r\n")`: what is before it and what is after it.
unfoldable pub find_crlf : Bytes → Option (Bytes × Bytes)
find_crlf [] = none
find_crlf (a ∷ []) = none
find_crlf (a ∷ b ∷ s) =
    let later = push a (find_crlf (b ∷ s)) in
    if a == b'\r' && b == b'\n' then some ([], s) else later

abbrev pub line_or :
    Option (Bytes × Bytes) → List (ℕ × Bytes) → Outcome Bytes Conn → Outcome Bytes Conn
line_or none chunks later = later
line_or (some (line, rest)) chunks later = got line (record { buffer = rest; chunks = chunks })

unfoldable pub read_line : Bytes → List (ℕ × Bytes) → Outcome Bytes Conn
unfolding find_crlf
read_line buffer [] = line_or (find_crlf buffer) [] (failed closed)
read_line buffer ((c, chunk) ∷ chunks) =
    line_or (find_crlf buffer) ((c, chunk) ∷ chunks) (read_line (buffer ++ (c ∷ chunk)) chunks)

abbrev pub cut : ℕ → Bytes → List (ℕ × Bytes) → Outcome Bytes Conn
cut n buffer chunks = got (take n buffer) (record { buffer = drop n buffer; chunks = chunks })

unfoldable pub read_exactly : ℕ → Bytes → List (ℕ × Bytes) → Outcome Bytes Conn
read_exactly n buffer [] = if ltb (length buffer) n then failed closed else cut n buffer []
read_exactly n buffer ((c, chunk) ∷ chunks) =
    let later = read_exactly n (buffer ++ (c ∷ chunk)) chunks in
    if ltb (length buffer) n then later else cut n buffer ((c, chunk) ∷ chunks)

abbrev pub split : Source Conn
split = record {
  line = λ c. read_line c.buffer c.chunks;
  exactly = λ n c. read_exactly n c.buffer c.chunks;
}

abbrev pub line_in : Option (Bytes × Bytes) → Outcome Bytes Bytes
line_in none = failed closed
line_in (some (line, rest)) = got line rest

abbrev pub whole : Source Bytes
whole = record {
  line = λ s. line_in (find_crlf s);
  exactly = λ n s. if ltb (length s) n then failed closed else got (take n s) (drop n s);
}

abbrev pub or_failed : {A S : Type 0} → RespError → Option A → S → Outcome A S
or_failed e none s = failed e
or_failed e (some a) s = got a s

abbrev pub with_byte : ℕ → Option Bytes → Option Bytes
with_byte a none = none
with_byte a (some s) = some (a ∷ s)

-- A body without its last two bytes, which must be CRLF.
abbrev pub body_of : Bytes → Option Bytes
body_of [] = none
body_of (a ∷ []) = none
body_of (a ∷ b ∷ []) = if a == b'\r' && b == b'\n' then some [] else none
body_of (a ∷ b ∷ c ∷ s) = with_byte a (body_of (b ∷ c ∷ s))

-- `int` of bytes and the decoding of UTF-8 are Python's.
module _ (int : Bytes → Option ℤ) (decode : Bytes → Option Text) {S : Type 0}
    (source : Source S) where
  abbrev pub as_text : Bytes → S → Outcome Reply S
  as_text raw s = and_then (λ t. got (text t)) (or_failed not_utf8 (decode raw) s)

  abbrev pub as_error : Bytes → S → Outcome Reply S
  as_error raw s = and_then (λ t s. failed (server_error t)) (or_failed not_utf8 (decode raw) s)

  abbrev pub as_number : Bytes → S → Outcome ℤ S
  as_number raw s = or_failed not_a_number (int raw) s

  abbrev pub as_body : Bytes → S → Outcome Reply S
  as_body raw s = and_then as_text (or_failed unterminated (body_of raw) s)

  abbrev pub bulk : ℤ → S → Outcome Reply S
  bulk (negsuc n) s = got nil s
  bulk (pos n) s = and_then as_body (source.exactly (n + 2) s)

  -- `[self.read_reply() for _ in range(count)]`
  abbrev pub items : (S → Outcome Reply S) → ℕ → S → Outcome Replies S
  items read zero s = got stop s
  items read (suc n) s =
      and_then (λ r. (λ s. and_then (λ rs. got (item r rs)) (items read n s))) (read s)

  abbrev pub elements : (S → Outcome Reply S) → ℤ → S → Outcome Reply S
  elements read (negsuc n) s = got nil s
  elements read (pos n) s = and_then (λ rs. got (array rs)) (items read n s)

  abbrev pub reply_of : (S → Outcome Reply S) → Bytes → S → Outcome Reply S
  reply_of read [] s = failed empty_reply
  reply_of read (kind ∷ payload) s =
      if kind == b'+'
      then as_text payload s
      else if kind == b'-'
      then as_error payload s
      else if kind == b':'
      then and_then (λ n. got (number n)) (as_number payload s)
      else if kind == b'$'
      then and_then bulk (as_number payload s)
      else if kind == b'*'
      then and_then (elements read) (as_number payload s)
      else failed unsupported

  -- The fuel bounds how deep arrays stand in arrays.
  unfoldable pub read_reply : ℕ → S → Outcome Reply S
  read_reply zero s = failed too_deep
  read_reply (suc fuel) s = and_then (reply_of (read_reply fuel)) (source.line s)
