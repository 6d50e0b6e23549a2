-- ===== src/Sentinel/Ports.antt =====
-- util.py: what `parse_sentinel_hosts` gives.
use ha_cluster_state_sync.Prelude.{
  ℕ, suc, ◌≤◌, ◌≡◌, ◌≢◌, refl, ℤ, pos, negsuc, Option, none, some, List, [], ◌∷◌, Text, length,
  arith, All,
}
use ha_cluster_state_sync.Str.{strip}
use ha_cluster_state_sync.Sentinel.{
  split_comma, host_and_port, number, in_range, with_port, named, parse_piece, and_host, parse_one,
  parse_pieces, parse_sentinel_hosts,
}

abbrev pub IsUsable : Text × ℕ → Type 0
IsUsable (host, port) = (host ≢ []) × (1 ≤ port) × (port ≤ 65535)

-- Usable hosts, no more than there are pieces.
abbrev pub IsListed : ℕ → Option (List (Text × ℕ)) → Type 0
IsListed n none = Unit
IsListed n (some hosts) = All IsUsable hosts × (length hosts ≤ n)

abbrev IsUsableOrNone : Option (Text × ℕ) → Type 0
IsUsableOrNone none = Unit
IsUsableOrNone (some host) = IsUsable host

module _ (int : Text → Option ℤ) where
  ranged : (o : Option ℤ) (n : ℕ) → in_range int o ≡ some n → (1 ≤ n) × (n ≤ 65535)
  ranged none n h = absurd (ground (arith, h))
  ranged (some (negsuc m)) n h = absurd (ground (arith, h))
  ranged (some (pos m)) n h = (ground (arith, h), ground (arith, h))

  with_port-IsUsable :
      (c : ℕ) (host : Text) (o : Option ℕ)
      → ((n : ℕ) → o ≡ some n → (1 ≤ n) × (n ≤ 65535))
      → IsUsableOrNone (with_port int (c ∷ host) o)
  with_port-IsUsable c host none h = tt
  with_port-IsUsable c host (some n) h = ((λ e. ground (arith, e)), (h n refl).0, (h n refl).1)

  named-IsUsable : (host : Text) (port : Option Text) → IsUsableOrNone (named int host port)
  named-IsUsable [] port = tt
  named-IsUsable (c ∷ host) port =
      with_port-IsUsable c host (in_range int (number int port)) (ranged (number int port))

  parse_piece-IsUsable : (piece : Text) → IsUsableOrNone (parse_piece int piece)
  unfolding parse_piece
  parse_piece-IsUsable piece =
      named-IsUsable (strip (host_and_port piece).0) (host_and_port piece).1

  and_host-IsListed :
      (n : ℕ) (o : Option (Text × ℕ)) (rest : Option (List (Text × ℕ)))
      → IsUsableOrNone o
      → IsListed n rest
      → IsListed (suc n) (and_host int o rest)
  and_host-IsListed n none rest u h = tt
  and_host-IsListed n (some host) none u h = tt
  and_host-IsListed n (some host) (some hosts) u (all, few) = ((u, all), omega (arith, few))

  more-IsListed :
      (n : ℕ) (rest : Option (List (Text × ℕ))) → IsListed n rest → IsListed (suc n) rest
  more-IsListed n none h = tt
  more-IsListed n (some hosts) (all, few) = (all, omega (arith, few))

  parse_one-IsListed :
      (n : ℕ) (piece : Text) (rest : Option (List (Text × ℕ)))
      → IsListed n rest
      → IsListed (suc n) (parse_one int piece rest)
  parse_one-IsListed n [] rest h = more-IsListed n rest h
  parse_one-IsListed n (c ∷ t) rest h =
      and_host-IsListed n (parse_piece int (c ∷ t)) rest (parse_piece-IsUsable (c ∷ t)) h

  parse_pieces-IsListed : (pieces : List Text) → IsListed (length pieces) (parse_pieces int pieces)
  unfolding parse_pieces
  parse_pieces-IsListed [] = (tt, omega arith)
  parse_pieces-IsListed (piece ∷ pieces) =
      parse_one-IsListed (length pieces) (strip piece) (parse_pieces int pieces)
        (parse_pieces-IsListed pieces)

  -- Where the text is accepted, every host has a name and a port from 1 to 65535, whatever `int` makes
  -- of a text, and there are no more hosts than pieces between the commas.
  pub parse_sentinel_hosts-IsListed :
      (raw : Text) → IsListed (length (split_comma raw)) (parse_sentinel_hosts int raw)
  unfolding parse_sentinel_hosts split_comma
  parse_sentinel_hosts-IsListed [] = (tt, omega arith)
  parse_sentinel_hosts-IsListed (c ∷ t) = parse_pieces-IsListed (split_comma (c ∷ t))
