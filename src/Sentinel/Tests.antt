-- ===== src/Sentinel/Tests.antt =====
-- Hosts with and without a port, in brackets and not.
use ha_cluster_state_sync.Prelude.{
  ◌≡◌, refl, ℤ, pos, Option, none, some, [], ◌∷◌, Text, codes, text_eq, length, if◌then◌else◌,
}
use ha_cluster_state_sync.Sentinel.{split_comma, parse_sentinel_hosts}
use ha_cluster_state_sync.Sentinel.Ports.{IsListed, parse_sentinel_hosts-IsListed}

abbrev int : Text → Option ℤ
int t =
    if text_eq t (codes "99")
    then some (pos 99)
    else if text_eq t (codes "1")
    then some (pos 1)
    else none

abbrev raw : Text
raw = codes "a:99, [fd00::1]:99,, b"

parsed :
    parse_sentinel_hosts int raw
    ≡ some ((codes "a", 99) ∷ ((codes "fd00::1", 99) ∷ ((codes "b", 26379) ∷ [])))
unfolding parse_sentinel_hosts text_eq
parsed = refl

-- An IPv6 address without brackets loses its last group to the port.
bare : parse_sentinel_hosts int (codes "fd00::1") ≡ some ((codes "fd00:", 1) ∷ [])
unfolding parse_sentinel_hosts text_eq
bare = refl

parse_sentinel_hosts-IsListed_example :
    IsListed (length (split_comma raw)) (parse_sentinel_hosts int raw)
parse_sentinel_hosts-IsListed_example = parse_sentinel_hosts-IsListed int raw
