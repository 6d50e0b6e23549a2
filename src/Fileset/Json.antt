-- ===== src/Fileset/Json.antt =====
-- The values of Python's `json` module.
use ha_cluster_state_sync.Prelude.{ℤ, Bool, [], ◌∷◌, Text}
use ha_cluster_state_sync.Dict.{Dict, NodupKeys}

-- A `float`: a number, of which only the part before the point is kept, or what is none.
pub data Float : Type 0 where
  finite : (whole : ℤ) → Float
  nan : Float
  infinite : Float

mutual
  pub data Json : Type 0 where
    null : Json
    boolean : Bool → Json
    integer : ℤ → Json
    real : Float → Json
    str : Text → Json
    arr : Items → Json
    obj : Members → Json

  pub data Items : Type 0 where
    no_items : Items
    an_item : Json → Items → Items

  pub data Members : Type 0 where
    no_members : Members
    member : Text → Json → Members → Members

-- The object as a `dict`.
unfoldable pub dict_of : Members → Dict Json
dict_of no_members = []
dict_of (member k j ms) = (k, j) ∷ dict_of ms

-- A value in which no object has a key twice: what a `dict` can hold.
unfoldable mutual
  pub DistinctKeys : Json → Type 0
  DistinctKeys null = Unit
  DistinctKeys (boolean b) = Unit
  DistinctKeys (integer n) = Unit
  DistinctKeys (real r) = Unit
  DistinctKeys (str t) = Unit
  DistinctKeys (arr js) = DistinctItems js
  DistinctKeys (obj ms) = NodupKeys (dict_of ms) × DistinctMembers ms

  pub DistinctItems : Items → Type 0
  DistinctItems no_items = Unit
  DistinctItems (an_item j js) = DistinctKeys j × DistinctItems js

  pub DistinctMembers : Members → Type 0
  DistinctMembers no_members = Unit
  DistinctMembers (member k j ms) = DistinctKeys j × DistinctMembers ms
