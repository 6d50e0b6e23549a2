-- ===== src/Resp/Tests.antt =====
-- An array of a text and a nil that comes in three chunks, cut inside a line end.
use ha_cluster_state_sync.Prelude.{
  ℤ, pos, negsuc, ◌≡◌, ◌≢◌, refl, ap, ℕ, zero, suc, length, All, List, false, ◌==◌, Option, none,
  some, [], ◌∷◌, Text, codes, text_eq, arith, if◌then◌else◌,
}
use ha_cluster_state_sync.Resp.Reader.{
  Bytes, text, nil, array, item, stop, got, failed, too_deep, Conn, split, whole, find_crlf,
  read_line, read_exactly, read_reply,
}
use ha_cluster_state_sync.Resp.Chunks.{bytes, seen, read_reply-seen}
use ha_cluster_state_sync.Resp.Encoding.{
  PythonLaws, texts, encode_command, read_reply-encode_command,
}
use ha_cluster_state_sync.Resp.Fuel.{read_reply-enough}

abbrev int : Bytes → Option ℤ
int raw =
    if text_eq raw (codes "2")
    then some (pos 2)
    else if text_eq raw (codes "-1")
    then some (negsuc 0)
    else none

abbrev decode : Bytes → Option Text
decode raw = some raw

abbrev conn : Conn
conn = record {
  buffer = codes "*2\r";
  chunks = (b'\n', codes "$2\r\na") ∷ (b'b', codes "\r\n$-1\r\n") ∷ [];
}

reads :
    read_reply int decode split 20 conn
    ≡ got (array (item (text (codes "ab")) (item nil stop))) (record { buffer = []; chunks = [] })
unfolding read_reply read_line read_exactly find_crlf text_eq
reads = refl

read_reply-seen_example :
    seen (read_reply int decode split 20 conn) ≡ read_reply int decode whole 20 (bytes conn)
read_reply-seen_example = read_reply-seen int decode 20 conn

read_reply-enough_example : read_reply int decode split 20 conn ≢ failed too_deep
read_reply-enough_example = read_reply-enough int decode 20 conn (omega arith)

-- Numbers written in ones, which keep the laws of the round trip.
abbrev ones : ℕ → Bytes
ones zero = []
ones (suc n) = b'1' ∷ ones n

abbrev count : Bytes → Option ℤ
count raw = some (pos (length raw))

abbrev as_is : Text → Bytes
as_is t = t

length-ones : (n : ℕ) → length (ones n) ≡ n
length-ones zero = refl
length-ones (suc n) = ap (λ (m : ℕ). suc m) (length-ones n)

ones-plain : (n : ℕ) → All (λ c. (c == b'\r') ≡ false) (ones n)
ones-plain zero = tt
ones-plain (suc n) = (refl, ones-plain n)

ones-PythonLaws : PythonLaws count decode ones as_is
ones-PythonLaws = record {
  int-decimal = λ n. ap (λ (m : ℕ). some (pos m)) (length-ones n);
  decimal-plain = ones-plain;
  decode-encode = λ t. refl;
}

-- The second argument holds a line end.
abbrev command : List Text
command = codes "GET" ∷ codes "a\r\nb" ∷ []

read_reply-encode_command_example :
    read_reply count decode whole 2 (encode_command ones as_is command)
    ≡ got (array (texts command)) []
read_reply-encode_command_example =
    read_reply-encode_command count decode ones as_is ones-PythonLaws 0 command
