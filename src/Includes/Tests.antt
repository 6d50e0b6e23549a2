-- ===== src/Includes/Tests.antt =====
-- Two files that include each other, and one that is not UTF-8.
use ha_cluster_state_sync.Prelude.{
  ◌+◌, ◌≡◌, refl, true, false, ◌⊎◌, List, [], ◌∷◌, Text, codes, text_eq, arith, if◌then◌else◌,
}
use ha_cluster_state_sync.Dict.{contains}
use ha_cluster_state_sync.Includes.{
  include_file, Opened, found, not_found, raises, Config, IncludeScan, scanned, raised, scan,
}
use ha_cluster_state_sync.Includes.Reach.{included, weight, IsClosed, AllIn}
use ha_cluster_state_sync.Includes.Covered.{start, step, scan-covers}

abbrev root : Text
root = codes "configuration.yaml"

abbrev child : Text
child = codes "lights.yaml"

abbrev opened : Text → Opened
opened x =
    if text_eq x root
    then found ((include_file, child) ∷ [])
    else if text_eq x child
    then found ((include_file, root) ∷ [])
    else not_found

abbrev config : Config
config = record {
  open_file = opened;
  target = λ current value. value;
  within = λ x. true;
  is_dir = λ x. false;
  yaml_under = λ x. [];
  rel = λ x. x;
}

abbrev both : List Text
both = root ∷ (child ∷ [])

both-IsClosed : IsClosed config both both
unfolding IsClosed AllIn included contains text_eq
both-IsClosed = ((refl, tt), ((refl, tt), tt))

enough : 1 + weight config both [] ≡ 3
unfolding included contains text_eq
enough = refl

leads_on : contains child (included config root) ≡ true
unfolding included contains text_eq
leads_on = refl

root_in : contains root both ≡ true
unfolding contains text_eq
root_in = refl

-- The cycle ends, with both paths.
cycle :
    scan config 3 root
    ≡ scanned
        (child ∷ (root ∷ []))
        (record { paths = child ∷ (root ∷ []); outside = []; missing = []; unreadable = [] })
unfolding scan text_eq contains
cycle = refl

-- An included file that is not UTF-8 ends the whole scan.
abbrev latin : Config
latin = record config { open_file = λ x. if text_eq x child then raises else opened x }

latin-raised : scan latin 3 root ≡ raised
unfolding scan text_eq contains
latin-raised = refl

scan-covers_example :
    (scan config 3 root ≡ raised)
    ⊎ ((seen : List Text) × (r : IncludeScan) × (scan config 3 root ≡ scanned seen r)
        × (contains child seen ≡ true))
scan-covers_example =
    scan-covers config both root child 3 both-IsClosed root_in (omega (arith, enough))
      (step start leads_on)
