-- ===== src/Identity/Kept.antt =====
-- fileset_identity.py: the entries of a node after a capture, a swap and a restore.
use ha_cluster_state_sync.Prelude.{
  ℕ, zero, suc, ◌≤◌, ◌≡◌, refl, sym, ap, ◌∙◌, Bool, true, false, Option, none, some, List, [], ◌∷◌,
  ◌++◌, Text, text_eq, text_eq_iff, length, if◌then◌else◌, arith, Bool-cases, inl, inr, All,
}
use ha_cluster_state_sync.Dict.{Dict, lookup, contains, lookup-insert}
use ha_cluster_state_sync.Fileset.Json.{Json}
use ha_cluster_state_sync.Identity.{
  Entry, is_own, own_entries, other_entries, effective, or_empty, insert_some, inherit_fields,
  inherit_cluster_wide, cluster_wide_fields, with_entry_id, rehomed,
}

abbrev pub or_else : {A : Type 0} → Option A → Option A → Option A
or_else (some a) o = some a
or_else none o = o

abbrev pub nth : ℕ → List Entry → Option Entry
nth i [] = none
nth zero (e ∷ es) = some e
nth (suc i) (e ∷ es) = nth i es

-- A field of the i-th entry.
abbrev pub effective_in : Text → Option Entry → Option Json
effective_in key none = none
effective_in key (some e) = effective key e

abbrev pub id_in : Option Entry → Option Text
id_in none = none
id_in (some e) = e.entry_id

-- What the program never inherits of an entry: its domain, its `data`, and the fields that it
-- does not read, `unique_id` and `title` among them.
abbrev pub unread_in : Option Entry → Option (Text × Option (Dict Json) × Dict Json)
unread_in none = none
unread_in (some e) = some (e.domain, e.«data», e.others)

-- An identifier that is there and not empty.
abbrev pub real_id : Option Text → Option Text
real_id none = none
real_id (some []) = none
real_id (some (c ∷ t)) = some (c ∷ t)

lookup-insert_some :
    (key k : Text) (o : Option Json) (options : Dict Json)
    → lookup key (insert_some k o options)
      ≡ (if text_eq key k then or_else o (lookup key options) else lookup key options)
lookup-insert_some key k none options = ground arith
lookup-insert_some key k (some v) options = ground (arith, lookup-insert key k v options)

or_else_idem : {A : Type 0} (a b : Option A) → or_else a (or_else a b) ≡ or_else a b
or_else_idem none b = refl
or_else_idem (some a) b = refl

if_same : {A : Type 0} (b : Bool) (x y : A) → x ≡ y → (if b then x else y) ≡ y
if_same true x y h = h
if_same false x y h = refl

-- One turn of the loop.
inherit_turn :
    (key k : Text) (keys : List Text) (theirs : Entry) (options : Dict Json)
    → (if contains key keys
        then or_else
            (effective key theirs)
            (lookup key (insert_some k (effective k theirs) options))
        else lookup key (insert_some k (effective k theirs) options))
      ≡ (if contains key (k ∷ keys)
          then or_else (effective key theirs) (lookup key options)
          else lookup key options)
unfolding contains
inherit_turn key k keys theirs options = elim (Bool-cases (text_eq key k)) [
  | inl same ↦
      let e : k ≡ key = sym ((text_eq_iff key k).0 same) in
      rw (lookup-insert_some key k (effective k theirs) options, same, e)
        (if_same (contains key keys)
          (or_else (effective key theirs) (or_else (effective key theirs) (lookup key options)))
          (or_else (effective key theirs) (lookup key options))
          (or_else_idem (effective key theirs) (lookup key options)))
  | inr other ↦ rw (lookup-insert_some key k (effective k theirs) options, other) refl
]

lookup-inherit_fields :
    (key : Text) (keys : List Text) (theirs : Entry) (options : Dict Json)
    → lookup key (inherit_fields keys theirs options) ≡ (
        if contains key keys
        then or_else (effective key theirs) (lookup key options)
        else lookup key options)
unfolding inherit_fields contains
lookup-inherit_fields key [] theirs options = refl
lookup-inherit_fields key (k ∷ keys) theirs options =
    lookup-inherit_fields key keys theirs (insert_some k (effective k theirs) options)
    ∙ inherit_turn key k keys theirs options

or_else_assoc : {A : Type 0} (a b c : Option A) → or_else (or_else a b) c ≡ or_else a (or_else b c)
or_else_assoc none b c = refl
or_else_assoc (some a) b c = refl

effective_lem :
    (key : Text) (e : Entry)
    → effective key e ≡ or_else (lookup key (or_empty e.options)) (lookup key (or_empty e.«data»))
unfolding effective
effective_lem key e = ground arith

if_or_else :
    {A : Type 0} (b : Bool) (t o d : Option A)
    → or_else (if b then or_else t o else o) d
      ≡ (if b then or_else t (or_else o d) else or_else o d)
if_or_else true t o d = or_else_assoc t o d
if_or_else false t o d = refl

effective-inherit_cluster_wide :
    (key : Text) (mine theirs : Entry)
    → effective key (inherit_cluster_wide mine theirs) ≡ (
        if contains key cluster_wide_fields
        then or_else (effective key theirs) (effective key mine)
        else effective key mine)
unfolding inherit_cluster_wide
effective-inherit_cluster_wide key mine theirs =
    effective_lem key (inherit_cluster_wide mine theirs)
    ∙ (ap (λ o. or_else o (lookup key (or_empty mine.«data»)))
          (lookup-inherit_fields key cluster_wide_fields theirs (or_empty mine.options))
        ∙ (if_or_else (contains key cluster_wide_fields) (effective key theirs)
              (lookup key (or_empty mine.options)) (lookup key (or_empty mine.«data»))
            ∙ ap
                (λ o.
                  if contains key cluster_wide_fields then or_else (effective key theirs) o else o)
                (sym (effective_lem key mine))))

effective-with_entry_id :
    (key : Text) (o : Option Text) (mine : Entry)
    → effective key (with_entry_id o mine) ≡ effective key mine
unfolding effective
effective-with_entry_id key none mine = refl
effective-with_entry_id key (some []) mine = refl
effective-with_entry_id key (some (c ∷ t)) mine = refl

domain-with_entry_id :
    (o : Option Text) (mine : Entry) → is_own (with_entry_id o mine) ≡ is_own mine
domain-with_entry_id none mine = refl
domain-with_entry_id (some []) mine = refl
domain-with_entry_id (some (c ∷ t)) mine = refl

id-with_entry_id :
    (o : Option Text) (mine : Entry)
    → (with_entry_id o mine).entry_id ≡ or_else (real_id o) mine.entry_id
id-with_entry_id none mine = refl
id-with_entry_id (some []) mine = refl
id-with_entry_id (some (c ∷ t)) mine = refl

unread-with_entry_id :
    (o : Option Text) (mine : Entry)
    → unread_in (some (with_entry_id o mine)) ≡ unread_in (some mine)
unread-with_entry_id none mine = refl
unread-with_entry_id (some []) mine = refl
unread-with_entry_id (some (c ∷ t)) mine = refl

unfoldable pub AreOwn : List Entry → Type 0
AreOwn = All (λ e. is_own e ≡ true)

pub rehomed-AreOwn : (ours incoming : List Entry) → AreOwn ours → AreOwn (rehomed ours incoming)
unfolding rehomed inherit_cluster_wide AreOwn
rehomed-AreOwn [] incoming h = tt
rehomed-AreOwn (mine ∷ ours) [] (o, h) = (o, rehomed-AreOwn ours [] h)
rehomed-AreOwn (mine ∷ ours) (theirs ∷ incoming) (o, h) =
    (domain-with_entry_id theirs.entry_id mine ∙ o, rehomed-AreOwn ours incoming h)

pub own_entries-AreOwn : (es : List Entry) → AreOwn (own_entries es)
unfolding own_entries AreOwn
own_entries-AreOwn [] = tt
own_entries-AreOwn (e ∷ es) = elim (Bool-cases (is_own e)) [
  | inl own ↦ rw own (own, own_entries-AreOwn es)
  | inr other ↦ rw other (own_entries-AreOwn es)
]

pub own_entries-graft :
    (es new : List Entry) → AreOwn new → own_entries (other_entries es ++ new) ≡ new
unfolding own_entries other_entries AreOwn
own_entries-graft [] [] h = refl
own_entries-graft [] (e ∷ new) (o, h) = rw o (ap (λ t. e ∷ t) (own_entries-graft [] new h))
own_entries-graft (e ∷ es) new h = elim (Bool-cases (is_own e)) [
  | inl own ↦ rw own (own_entries-graft es new h)
  | inr other ↦ rw (other, other) (own_entries-graft es new h)
]

pub other_entries-graft :
    (es new : List Entry) → AreOwn new → other_entries (other_entries es ++ new) ≡ other_entries es
unfolding other_entries AreOwn
other_entries-graft [] [] h = refl
other_entries-graft [] (e ∷ new) (o, h) = rw o (other_entries-graft [] new h)
other_entries-graft (e ∷ es) new h = elim (Bool-cases (is_own e)) [
  | inl own ↦ rw own (other_entries-graft es new h)
  | inr other ↦ rw (other, other) (ap (λ t. e ∷ t) (other_entries-graft es new h))
]

length-rehomed : (ours incoming : List Entry) → length (rehomed ours incoming) ≡ length ours
unfolding rehomed
length-rehomed [] incoming = refl
length-rehomed (mine ∷ ours) [] = ap suc (length-rehomed ours [])
length-rehomed (mine ∷ ours) (theirs ∷ incoming) = ap suc (length-rehomed ours incoming)

-- What becomes of the field of an entry: the go-bag's where it is cluster-wide and the go-bag has it.
abbrev pub settled_field : Text → Option Json → Option Json → Option Json
settled_field key theirs mine =
    if contains key cluster_wide_fields then or_else theirs mine else mine

settled_none : (key : Text) (o : Option Json) → o ≡ settled_field key none o
settled_none key o = sym (if_same (contains key cluster_wide_fields) o o refl)

rehomed_field :
    (key : Text) (i : ℕ) (ours incoming : List Entry)
    → length incoming ≤ length ours
    → effective_in key (nth i (rehomed ours incoming))
      ≡ settled_field key (effective_in key (nth i incoming)) (effective_in key (nth i ours))
unfolding rehomed
rehomed_field key i [] [] h = settled_none key none
rehomed_field key i [] (t ∷ incoming) h = absurd (omega (arith, h))
rehomed_field key zero (m ∷ ours) [] h = settled_none key (effective key m)
rehomed_field key (suc i) (m ∷ ours) [] h = rehomed_field key i ours [] (omega arith)
rehomed_field key zero (m ∷ ours) (t ∷ incoming) h =
    effective-inherit_cluster_wide key (with_entry_id t.entry_id m) t
    ∙ ap (settled_field key (effective key t)) (effective-with_entry_id key t.entry_id m)
rehomed_field key (suc i) (m ∷ ours) (t ∷ incoming) h =
    rehomed_field key i ours incoming (omega (arith, h))

rehomed_id :
    (i : ℕ) (ours incoming : List Entry)
    → length incoming ≤ length ours
    → id_in (nth i (rehomed ours incoming))
      ≡ or_else (real_id (id_in (nth i incoming))) (id_in (nth i ours))
unfolding rehomed inherit_cluster_wide
rehomed_id i [] [] h = refl
rehomed_id i [] (t ∷ incoming) h = absurd (omega (arith, h))
rehomed_id zero (m ∷ ours) [] h = refl
rehomed_id (suc i) (m ∷ ours) [] h = rehomed_id i ours [] (omega arith)
rehomed_id zero (m ∷ ours) (t ∷ incoming) h = id-with_entry_id t.entry_id m
rehomed_id (suc i) (m ∷ ours) (t ∷ incoming) h = rehomed_id i ours incoming (omega (arith, h))

rehomed_unread :
    (i : ℕ) (ours incoming : List Entry)
    → length incoming ≤ length ours
    → unread_in (nth i (rehomed ours incoming)) ≡ unread_in (nth i ours)
unfolding rehomed inherit_cluster_wide
rehomed_unread i [] [] h = refl
rehomed_unread i [] (t ∷ incoming) h = absurd (omega (arith, h))
rehomed_unread zero (m ∷ ours) [] h = refl
rehomed_unread (suc i) (m ∷ ours) [] h = rehomed_unread i ours [] (omega arith)
rehomed_unread zero (m ∷ ours) (t ∷ incoming) h = unread-with_entry_id t.entry_id m
rehomed_unread (suc i) (m ∷ ours) (t ∷ incoming) h =
    rehomed_unread i ours incoming (omega (arith, h))

-- The i-th entry of `after` is this node's: its domain, its `data` and all that the program does
-- not read; each field, as the integration reads it, but for a cluster-wide one that the go-bag's
-- i-th entry has; and its identifier, but for one that the go-bag's i-th entry has.
pub record IsKept (i : ℕ) (key : Text) (ours theirs after : List Entry) : Type 0 where
  pub count : length after ≡ length ours
  pub unread : unread_in (nth i after) ≡ unread_in (nth i ours)
  pub field :
      effective_in key (nth i after)
      ≡ settled_field key (effective_in key (nth i theirs)) (effective_in key (nth i ours))
  pub identifier :
      id_in (nth i after) ≡ or_else (real_id (id_in (nth i theirs))) (id_in (nth i ours))

pub rehomed-IsKept :
    (i : ℕ) (key : Text) (ours theirs : List Entry)
    → length theirs ≤ length ours
    → IsKept i key ours theirs (rehomed ours theirs)
rehomed-IsKept i key ours theirs h = record {
  count = length-rehomed ours theirs;
  unread = rehomed_unread i ours theirs h;
  field = rehomed_field key i ours theirs h;
  identifier = rehomed_id i ours theirs h;
}
