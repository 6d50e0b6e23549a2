-- ===== src/Fileset/Building.antt =====
-- fileset_pull.py: the tree that is built of a manifest whose paths have room beside each other.
use ha_cluster_state_sync.Prelude.{
  ◌%◌, ◌≡◌, refl, sym, ap, ◌∙◌, subst, Bool, true, false, not, ◌&&◌, ◌||◌, ℤ, Option, none, some,
  List, [], ◌∷◌, Text, text_eq, text_eq_iff, arith, Bool-cases, inl, inr,
}
use ha_cluster_state_sync.Dict.{Dict, NodupKeys, lookup, insert, lookup-insert}
use ha_cluster_state_sync.Fileset.Sealing.{Bytes, Primitives, PrimitiveLaws, blob_ref}
use ha_cluster_state_sync.Fileset.Keyspace.{Keyspace, KeyspaceLaws}
use ha_cluster_state_sync.Fileset.Scan.{FileEntry}
use ha_cluster_state_sync.Fileset.Paths.{target_of, is_above}
use ha_cluster_state_sync.Fileset.Backed.{AllRefs}
use ha_cluster_state_sync.Fileset.Pull.{Tree, StagedFile, Host, built, build, conflicts, root}
use ha_cluster_state_sync.Fileset.Opening.{pull_entries}
use ha_cluster_state_sync.Fileset.Fetching.{IsFetched}

-- A path that names a place under `root` as it stands.
abbrev is_itself : Text → Option Text → Bool
is_itself rel none = false
is_itself rel (some t) = text_eq t rel

is_itself_lem : (rel : Text) (o : Option Text) → is_itself rel o ≡ true → o ≡ some rel
is_itself_lem rel none h = ground (arith, h)
is_itself_lem rel (some t) h = ap some ((text_eq_iff t rel).0 h)

unfoldable is_clean : (at : List Text) → Text → Bool
is_clean at rel = is_itself rel (target_of at rel) && not (is_above rel [])

-- One of the paths is a directory above the other.
unfoldable clashes : Text → Dict FileEntry → Bool
clashes rel [] = false
clashes rel ((r, e) ∷ es) = (is_above r rel || is_above rel r) || clashes rel es

-- Every path is clean and no path is a directory above another.
unfoldable pub is_placeable : (at : List Text) → Dict FileEntry → Bool
unfolding is_clean clashes target_of is_above
is_placeable at [] = true
is_placeable at ((rel, e) ∷ es) = (is_clean at rel && not (clashes rel es)) && is_placeable at es

abbrev Free : Dict FileEntry → Tree → Type 0
Free [] tree = Unit
Free ((rel, e) ∷ es) tree = (conflicts rel tree ≡ false) × Free es tree

conflicts-insert :
    (t k : Text) (f : StagedFile) (tree : Tree)
    → conflicts t tree ≡ false
    → (is_above t k || is_above k t) ≡ false
    → conflicts t (insert k f tree) ≡ false
unfolding insert
conflicts-insert t k f [] h c = ground (arith, h, c)
conflicts-insert t k f ((j, g) ∷ tree) h c = ground (arith, h, c, conflicts-insert t k f tree)

Free-insert :
    (k : Text) (f : StagedFile) (es : Dict FileEntry) (tree : Tree)
    → Free es tree
    → clashes k es ≡ false
    → Free es (insert k f tree)
unfolding clashes
Free-insert k f [] tree h c = tt
Free-insert k f ((rel, e) ∷ es) tree (free, h) c = (
  conflicts-insert rel k f tree free (ground (arith, c)),
  Free-insert k f es tree h (ground (arith, c)),
)

pub Free-empty : (at : List Text) (es : Dict FileEntry) → is_placeable at es ≡ true → Free es []
unfolding is_placeable is_clean
Free-empty at [] h = tt
Free-empty at ((rel, e) ∷ es) h = (ground (arith, h), Free-empty at es (ground (arith, h)))

placeable-parts :
    (at : List Text) (r : Text) (e : FileEntry) (es : Dict FileEntry)
    → is_placeable at ((r, e) ∷ es) ≡ true
    → (is_clean at r ≡ true) × (clashes r es ≡ false) × (is_placeable at es ≡ true)
unfolding is_placeable
placeable-parts at r e es h = (ground (arith, h), ground (arith, h), ground (arith, h))

-- What becomes of a path: a file of its entry, or what was there.
abbrev pub Delivers :
    (blob_ref : Bytes → Text) → Option FileEntry → Option StagedFile → Option StagedFile → Type 0
Delivers blob_ref none old new = new ≡ old
Delivers blob_ref (some e) old new =
    (f : StagedFile) × (new ≡ some f) × (blob_ref f.body ≡ e.ref) × (f.file_mode ≡ e.mode % 512)

module _ (p : Primitives) (plaws : PrimitiveLaws p) (int_of_text : Text → Option ℤ)
    {Server : Type 0} (kv : Keyspace Server) (laws : KeyspaceLaws kv) (namespace secret : Text)
    (key : Bytes) (host : Host) (willing : (t : Text) → host.write_refused t ≡ false)
    (bodies : Dict Bytes) where
  abbrev here : List Text
  here = root p int_of_text kv namespace key host

  target-clean : (rel : Text) → is_clean here rel ≡ true → target_of here rel ≡ some rel
  unfolding is_clean
  target-clean rel h = is_itself_lem rel (target_of here rel) (ground (arith, h))

  pub build-Delivers :
      (rel : Text) (es : Dict FileEntry) (tree : Tree)
      → NodupKeys es
      → is_placeable here es ≡ true
      → Free es tree
      → AllRefs (IsFetched p plaws int_of_text kv laws namespace secret key host bodies) es
      → (after : Tree) × (build p int_of_text kv namespace key host (pull_entries es) bodies tree
          ≡ built after)
        × Delivers (blob_ref p secret) (lookup rel es) (lookup rel tree) (lookup rel after)
  unfolding build lookup is_placeable
  build-Delivers rel [] tree u h free got = (tree, refl, refl)
  build-Delivers rel ((r, e) ∷ es) tree (fresh, u) h (c, free) ((body, found, right), got) =
      let f : StagedFile = record { body = body; file_mode = e.mode % 512 } in
      let (clean, apart, rest) = placeable-parts here r e es h in
      let (after, done, delivered) =
        build-Delivers rel es (insert r f tree) u rest (Free-insert r f es tree free apart) got in
      (
        after,
        rw (target-clean r clean, found, willing r, c) done,
        elim (Bool-cases (text_eq rel r)) [
          | inl same ↦
              let gone : lookup rel es ≡ none =
                subst (λ x. lookup x es ≡ none) (sym ((text_eq_iff rel r).0 same)) fresh in
              let kept : lookup rel after ≡ lookup rel (insert r f tree) =
                subst
                  (λ o.
                    Delivers (blob_ref p secret) o (lookup rel (insert r f tree))
                      (lookup rel after))
                  gone delivered in
              rw same (f, kept ∙ (lookup-insert rel r f tree ∙ rw same refl), right, refl)
          | inr other ↦ rw other (
              subst (λ o. Delivers (blob_ref p secret) (lookup rel es) o (lookup rel after))
                (lookup-insert rel r f tree ∙ rw other refl) delivered)
        ],
      )
