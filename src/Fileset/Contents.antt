-- ===== src/Fileset/Contents.antt =====
-- fileset_pull.py: what the staged tree holds at a path, told from the manifest and the server alone,
-- and that the loops of `restore_fileset` come to it.
use ha_cluster_state_sync.Prelude.{
  ◌≡◌, refl, sym, ap, ◌∙◌, subst, Bool, true, false, ◌||◌, ℤ, Option, none, some, List, [], ◌∷◌,
  Text, text_eq, text_eq_iff, text_eq_refl, suc, arith, Bool-cases, Option-cases, inl, inr, length,
  if◌then◌else◌,
}
use ha_cluster_state_sync.Dict.{Dict, lookup, insert, lookup-insert, contains}
use ha_cluster_state_sync.Fileset.Sealing.{
  Bytes, Primitives, blob_aad, open_sealed, fileset_blob_key,
}
use ha_cluster_state_sync.Fileset.Keyspace.{Keyspace}
use ha_cluster_state_sync.Fileset.Parsed.{PullEntry, refs, add_ref}
use ha_cluster_state_sync.Fileset.Paths.{target_of}
use ha_cluster_state_sync.Fileset.Pull.{
  Tree, StagedFile, Host, Built, built, escaped, stopped, Fetched, fetched, missing, not_authentic,
  not_base64, fetch, answered, opened, build, placed, written, and_build, mode_bits, root,
  conflicts,
}

-- Some entry has the reference.
unfoldable pub is_named : Text → Dict PullEntry → Bool
is_named ref [] = false
is_named ref ((rel, e) ∷ es) = text_eq ref e.ref || is_named ref es

pub contains-add_ref :
    (x ref : Text) (rs : List Text) → contains x (add_ref ref rs) ≡ (text_eq x ref || contains x rs)
unfolding contains add_ref
contains-add_ref x ref [] = refl
contains-add_ref x ref (r ∷ rs) =
    ground (arith, contains-add_ref x ref rs, text_eq_iff x ref, text_eq_iff ref r, text_eq_iff x r)

pub contains-refs : (x : Text) (es : Dict PullEntry) → contains x (refs es) ≡ is_named x es
unfolding refs is_named contains
contains-refs x [] = refl
contains-refs x ((rel, e) ∷ es) =
    contains-add_ref x e.ref (refs es) ∙ ap (λ b. text_eq x e.ref || b) (contains-refs x es)

abbrev is_at : Text → Option Text → Bool
is_at t none = false
is_at t (some u) = text_eq t u

abbrev or_last : Option PullEntry → Option PullEntry → Option PullEntry
or_last (some e) first = some e
or_last none first = first

-- The last of the entries whose path leads to the file `t`.
unfoldable pub source_of : (at : List Text) → Text → Dict PullEntry → Option PullEntry
unfolding target_of
source_of at t [] = none
source_of at t ((rel, e) ∷ es) =
    or_last (source_of at t es) (if is_at t (target_of at rel) then some e else none)

-- Every path leads to a place below the directory.
unfoldable pub IsInside : (at : List Text) → Dict PullEntry → Type 0
unfolding target_of
IsInside at [] = Unit
IsInside at ((rel, e) ∷ es) = ((t : Text) × (target_of at rel ≡ some t)) × IsInside at es

module _ (p : Primitives) (int_of_text : Text → Option ℤ) {Server : Type 0} (kv : Keyspace Server)
    (namespace : Text) (key : Bytes) (host : Host) where
  -- The sealed text that the server holds for a reference.
  abbrev pub IsSealed : Server → Text → Bytes → Type 0
  IsSealed s ref sealed =
      (value : Text) × (kv.get (fileset_blob_key namespace ref) s ≡ some value)
      × (p.b64decode value ≡ some sealed)

  -- It opens to `body` under the associated data of this reference.
  abbrev pub IsBlob : Server → Text → Bytes → Type 0
  IsBlob s ref body =
      (sealed : Bytes) × IsSealed s ref sealed
      × (open_sealed p key sealed (blob_aad p ref) ≡ some body)

  abbrev Opens : Server → Dict Bytes → Type 0
  Opens s [] = Unit
  Opens s ((ref, body) ∷ bodies) = IsBlob s ref body × Opens s bodies

  lookup-Opens :
      (s : Server) (ref : Text) (body : Bytes) (bodies : Dict Bytes)
      → Opens s bodies
      → lookup ref bodies ≡ some body
      → IsBlob s ref body
  unfolding lookup
  lookup-Opens s ref body [] h e = absurd (ground (arith, e))
  lookup-Opens s ref body ((r, b) ∷ bodies) (blob, h) e = elim (Bool-cases (text_eq ref r)) [
    | inl same ↦
        let found : b ≡ body = ground (arith, e, same) in
        subst (λ x. IsBlob s x body) (sym ((text_eq_iff ref r).0 same))
          (subst (IsBlob s r) found blob)
    | inr other ↦ lookup-Opens s ref body bodies h (ground (arith, e, other))
  ]

  abbrev pub Fetches : Server → List Text → Fetched → Type 0
  Fetches s refs missing = Unit
  Fetches s refs not_base64 = Unit
  Fetches s refs not_authentic =
      (ref : Text) × (contains ref refs ≡ true)
      × ((sealed : Bytes) × IsSealed s ref sealed
          × (open_sealed p key sealed (blob_aad p ref) ≡ none))
  Fetches s refs (fetched bodies) = Opens s bodies × (length bodies ≡ length refs)

  module _ (s : Server) (ref : Text) (refs : List Text) where
    opened-Fetches :
        (sealed : Bytes) (o : Option Bytes) (rest : Fetched)
        → IsSealed s ref sealed
        → open_sealed p key sealed (blob_aad p ref) ≡ o
        → Fetches s refs rest
        → Fetches s (ref ∷ refs) (opened p int_of_text kv namespace key host ref o rest)
    unfolding contains
    opened-Fetches sealed none rest there e h =
        (ref, rw (text_eq_refl ref) refl, (sealed, there, e))
    opened-Fetches sealed (some body) missing there e h = tt
    opened-Fetches sealed (some body) not_base64 there e h = tt
    opened-Fetches sealed (some body) not_authentic there e (r, named, forged) =
        (r, ground (arith, named), forged)
    opened-Fetches sealed (some body) (fetched bodies) there e (h, n) =
        (((sealed, there, e), h), ap suc n)

    answered-Fetches :
        (o : Option Text) (rest : Fetched)
        → kv.get (fileset_blob_key namespace ref) s ≡ o
        → Fetches s refs rest
        → Fetches s (ref ∷ refs) (answered p int_of_text kv namespace key host ref o rest)
    answered-Fetches none rest e h = tt
    answered-Fetches (some value) rest e h = elim (Option-cases (p.b64decode value)) [
      | inl bad ↦ rw bad tt
      | inr (sealed, decodes) ↦ rw decodes (
          opened-Fetches sealed (open_sealed p key sealed (blob_aad p ref)) rest (value, e, decodes)
            refl h)
    ]

  -- The bodies that are fetched are the server's, opened under their own references, one for each;
  -- a blob that does not authenticate is among those that were asked for.
  pub fetch-Fetches :
      (refs : List Text) (s : Server)
      → Fetches s refs (fetch p int_of_text kv namespace key host refs s)
  unfolding fetch
  fetch-Fetches [] s = (tt, refl)
  fetch-Fetches (ref ∷ refs) s =
      answered-Fetches s ref refs (kv.get (fileset_blob_key namespace ref) s)
        (fetch p int_of_text kv namespace key host refs s) refl (fetch-Fetches refs s)

  -- The file of an entry: its mode, and the body of its reference.
  abbrev pub IsFileOf : Server → PullEntry → Option StagedFile → Type 0
  IsFileOf s e f =
      (body : Bytes) × (f ≡ some (record { body = body; file_mode = mode_bits e.mode }))
      × IsBlob s e.ref body

  -- A path has the file of the last entry that leads to it, or what was there.
  abbrev pub IsLaid : Server → Option PullEntry → Option StagedFile → Option StagedFile → Type 0
  IsLaid s none old new = new ≡ old
  IsLaid s (some e) old new = IsFileOf s e new

  abbrev here : List Text
  here = root p int_of_text kv namespace key host

  -- What one turn of the loop has done if it comes to its end.
  record Wrote (rel : Text) (e : PullEntry) (bodies : Dict Bytes) (tree after : Tree) : Type 0 where
    pub t : Text
    pub target : target_of here rel ≡ some t
    pub body : Bytes
    pub found : lookup e.ref bodies ≡ some body
    pub laid : after ≡ insert t (record { body = body; file_mode = mode_bits e.mode }) tree

  written-inv :
      (rel t : Text) (e : PullEntry) (o : Option Bytes) (bodies : Dict Bytes) (tree after : Tree)
      → target_of here rel ≡ some t
      → lookup e.ref bodies ≡ o
      → written p int_of_text kv namespace key host t e o tree ≡ built after
      → Wrote rel e bodies tree after
  unfolding insert
  written-inv rel t e none bodies tree after at got h = absurd (ground (arith, h))
  written-inv rel t e (some body) bodies tree after at got h =
      elim (Bool-cases (host.write_refused t || conflicts t tree)) [
        | inl refused ↦ absurd (ground (arith, h, refused))
        | inr fine ↦ record {
          t = t;
          target = at;
          body = body;
          found = got;
          laid = ground (arith, h, fine);
        }
      ]

  placed-inv :
      (rel : Text) (o : Option Text) (e : PullEntry) (bodies : Dict Bytes) (tree after : Tree)
      → target_of here rel ≡ o
      → placed p int_of_text kv namespace key host o e bodies tree ≡ built after
      → Wrote rel e bodies tree after
  placed-inv rel none e bodies tree after at h = absurd (ground (arith, h))
  placed-inv rel (some t) e bodies tree after at h =
      written-inv rel t e (lookup e.ref bodies) bodies tree after at refl h

  and_build-inv :
      (f : Tree → Built) (b : Built) (after : Tree)
      → and_build p int_of_text kv namespace key host f b ≡ built after
      → (mid : Tree) × (b ≡ built mid) × (f mid ≡ built after)
  and_build-inv f (built mid) after h = (mid, refl, h)
  and_build-inv f (escaped mid) after h = absurd (ground (arith, h))
  and_build-inv f (stopped mid) after h = absurd (ground (arith, h))

  -- The end of the loop: a later entry of the same path wins, else this one, else what was there.
  IsLaid-turn :
      (s : Server) (path rel : Text) (e : PullEntry) (es : Dict PullEntry) (bodies : Dict Bytes)
      (tree mid after : Tree) (later : Option PullEntry)
      → Opens s bodies
      → Wrote rel e bodies tree mid
      → IsLaid s later (lookup path mid) (lookup path after)
      → IsLaid s
          (or_last later (if is_at path (target_of here rel) then some e else none))
          (lookup path tree)
          (lookup path after)
  IsLaid-turn s path rel e es bodies tree mid after (some x) h w laid = laid
  IsLaid-turn s path rel e es bodies tree mid after none h w laid =
      let file : StagedFile = record { body = w.body; file_mode = mode_bits e.mode } in
      let step : lookup path mid ≡ (if text_eq path w.t then some file else lookup path tree) =
        ap (lookup path) w.laid ∙ lookup-insert path w.t file tree in
      elim (Bool-cases (text_eq path w.t)) [
        | inl same ↦
            rw (w.target, same)
              (w.body, laid ∙ (step ∙ rw same refl), lookup-Opens s e.ref w.body bodies h w.found)
        | inr other ↦ rw (w.target, other) (laid ∙ (step ∙ rw other refl))
      ]

  pub build-IsLaid :
      (s : Server) (path : Text) (es : Dict PullEntry) (bodies : Dict Bytes) (tree after : Tree)
      → Opens s bodies
      → build p int_of_text kv namespace key host es bodies tree ≡ built after
      → IsInside here es × IsLaid s (source_of here path es) (lookup path tree) (lookup path after)
  unfolding build source_of IsInside
  build-IsLaid s path [] bodies tree after h e = (tt, ground (arith, e))
  build-IsLaid s path ((rel, x) ∷ es) bodies tree after h e =
      let (mid, first, rest) =
        and_build-inv (build p int_of_text kv namespace key host es bodies)
          (placed p int_of_text kv namespace key host (target_of here rel) x bodies tree) after e in
      let w = placed-inv rel (target_of here rel) x bodies tree mid refl first in
      let (inside, laid) = build-IsLaid s path es bodies mid after h rest in
      (
        ((w.t, w.target), inside),
        IsLaid-turn s path rel x es bodies tree mid after (source_of here path es) h w laid,
      )
