-- ===== src/Sentinel.antt =====
-- custom_components/cluster_state_sync/util.py: `parse_sentinel_hosts`.
use ha_cluster_state_sync.Prelude.{
  ℕ, ℤ, pos, negsuc, Bool, not, ◌&&◌, Option, none, some, List, [], ◌∷◌, Text, leb, ◌==◌,
  if◌then◌else◌,
}
use ha_cluster_state_sync.Str.{strip}
pub mod Ports
mod Tests

-- DEFAULT_SENTINEL_PORT
abbrev pub default_sentinel_port : ℤ
default_sentinel_port = pos 26379

abbrev add_to_piece : ℕ → List Text → List Text
add_to_piece c [] = (c ∷ []) ∷ []
add_to_piece c (piece ∷ pieces) = (c ∷ piece) ∷ pieces

-- `raw.split(",")`
unfoldable pub split_comma : Text → List Text
split_comma [] = [] ∷ []
split_comma (c ∷ t) =
    let rest = split_comma t in if c == b',' then [] ∷ rest else add_to_piece c rest

-- `t.partition("]")` without the bracket: what is before it and what is after it.
unfoldable pub partition_bracket : Text → Text × Text
partition_bracket [] = ([], [])
partition_bracket (c ∷ t) =
    let (before, after) = partition_bracket t in if c == b']' then ([], t) else (c ∷ before, after)

-- `t.lstrip(":")`
unfoldable pub lstrip_colons : Text → Text
lstrip_colons [] = []
lstrip_colons (c ∷ t) = let rest = lstrip_colons t in if c == b':' then rest else c ∷ t

abbrev rsplit_cons : ℕ → Text → Option (Text × Text) → Option (Text × Text)
rsplit_cons c t (some (a, b)) = some (c ∷ a, b)
rsplit_cons c t none = if c == b':' then some ([], t) else none

-- `t.rsplit(":", 1)`, none without a colon.
unfoldable pub rsplit_colon : Text → Option (Text × Text)
rsplit_colon [] = none
rsplit_colon (c ∷ t) = rsplit_cons c t (rsplit_colon t)

-- The host and the text of the port, none for the default.
abbrev bracketed : Text × Text → Text × Option Text
bracketed (host, remainder) =
    (host, elim (lstrip_colons remainder) [ [] ↦ none | c ∷ t ↦ some (c ∷ t) ])

abbrev unbracketed : Text → Option (Text × Text) → Text × Option Text
unbracketed piece none = (piece, none)
unbracketed piece (some (host, port)) = (host, some port)

-- A piece that is not empty.
unfoldable pub host_and_port : Text → Text × Option Text
unfolding partition_bracket lstrip_colons rsplit_colon
host_and_port [] = ([], none)
host_and_port (c ∷ t) =
    if c == b'['
    then bracketed (partition_bracket t)
    else unbracketed (c ∷ t) (rsplit_colon (c ∷ t))

module _ (int : Text → Option ℤ) where
  abbrev number : Option Text → Option ℤ
  number none = some default_sentinel_port
  number (some t) = int t

  abbrev in_range : Option ℤ → Option ℕ
  in_range none = none
  in_range (some (negsuc n)) = none
  in_range (some (pos n)) = if leb 1 n && leb n 65535 then some n else none

  abbrev with_port : Text → Option ℕ → Option (Text × ℕ)
  with_port host none = none
  with_port host (some port) = some (host, port)

  abbrev named : Text → Option Text → Option (Text × ℕ)
  named [] port = none
  named (c ∷ host) port = with_port (c ∷ host) (in_range (number port))

  -- None is a `ValueError`.
  unfoldable pub parse_piece : Text → Option (Text × ℕ)
  unfolding host_and_port strip
  parse_piece piece = let (host, port) = host_and_port piece in named (strip host) port

  abbrev and_host : Option (Text × ℕ) → Option (List (Text × ℕ)) → Option (List (Text × ℕ))
  and_host none rest = none
  and_host (some host) none = none
  and_host (some host) (some hosts) = some (host ∷ hosts)

  -- An empty piece is passed over.
  abbrev pub parse_one : Text → Option (List (Text × ℕ)) → Option (List (Text × ℕ))
  parse_one [] rest = rest
  parse_one (c ∷ t) rest = and_host (parse_piece (c ∷ t)) rest

  unfoldable pub parse_pieces : List Text → Option (List (Text × ℕ))
  unfolding parse_piece strip
  parse_pieces [] = some []
  parse_pieces (piece ∷ pieces) = let rest = parse_pieces pieces in parse_one (strip piece) rest

  unfoldable pub parse_sentinel_hosts : Text → Option (List (Text × ℕ))
  unfolding parse_pieces split_comma
  parse_sentinel_hosts [] = some []
  parse_sentinel_hosts (c ∷ t) = parse_pieces (split_comma (c ∷ t))
