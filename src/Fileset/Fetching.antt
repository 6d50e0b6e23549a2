-- ===== src/Fileset/Fetching.antt =====
-- fileset_pull.py: the blobs of a manifest, fetched from a server that has them.
use ha_cluster_state_sync.Prelude.{
  ◌≡◌, refl, sym, ap, ◌∙◌, subst, true, ℤ, Option, some, List, [], ◌∷◌, Text, text_eq, text_eq_iff,
  text_eq_refl, arith, Bool-cases, inl, inr, All, if-either,
}
use ha_cluster_state_sync.Dict.{Dict, keys, lookup, sorted, insert_sorted, contains, text_ltb}
use ha_cluster_state_sync.Fileset.Sealing.{
  Bytes, Primitives, PrimitiveLaws, blob_ref, blob_aad, seal,
}
use ha_cluster_state_sync.Fileset.Keyspace.{Keyspace, KeyspaceLaws}
use ha_cluster_state_sync.Fileset.Scan.{FileEntry}
use ha_cluster_state_sync.Fileset.Parsed.{refs, add_ref}
use ha_cluster_state_sync.Fileset.Backed.{AllRefs, AllRefs-map, IsBacked, AreNamed}
use ha_cluster_state_sync.Fileset.Pull.{Host, fetched, fetch}
use ha_cluster_state_sync.Fileset.Contents.{contains-add_ref}
use ha_cluster_state_sync.Fileset.Opening.{pull_entries, open_sealed-seal}

AllRefs-insert_sorted :
    (Q : Text → Type 0) (rel : Text) (e : FileEntry) (es : Dict FileEntry)
    → Q e.ref
    → AllRefs Q es
    → AllRefs Q (insert_sorted rel e es)
unfolding insert_sorted
AllRefs-insert_sorted Q rel e [] q h = (q, tt)
AllRefs-insert_sorted Q rel e ((r, x) ∷ es) q (qx, h) =
    if-either (AllRefs Q) (text_ltb r rel) _ _ (qx, AllRefs-insert_sorted Q rel e es q h)
      (q, (qx, h))

pub AllRefs-sorted :
    (Q : Text → Type 0) (es : Dict FileEntry) → AllRefs Q es → AllRefs Q (sorted es)
unfolding sorted
AllRefs-sorted Q [] h = tt
AllRefs-sorted Q ((rel, e) ∷ es) (q, h) =
    AllRefs-insert_sorted Q rel e (sorted es) q (AllRefs-sorted Q es h)

All-add_ref :
    (Q : Text → Type 0) (ref : Text) (rs : List Text) → Q ref → All Q rs → All Q (add_ref ref rs)
unfolding add_ref
All-add_ref Q ref [] q h = (q, tt)
All-add_ref Q ref (r ∷ rs) q (qr, h) =
    if-either (All Q) (text_eq ref r) _ _ (qr, h)
      (if-either (All Q) (text_ltb ref r) _ _ (q, (qr, h)) (qr, All-add_ref Q ref rs q h))

All-refs : (Q : Text → Type 0) (es : Dict FileEntry) → AllRefs Q es → All Q (refs (pull_entries es))
unfolding refs
All-refs Q [] h = tt
All-refs Q ((rel, e) ∷ es) (q, h) = All-add_ref Q e.ref (refs (pull_entries es)) q (All-refs Q es h)

-- Every reference of the entries is asked for.
AllRefs-asked :
    (es : Dict FileEntry) → AllRefs (λ ref. contains ref (refs (pull_entries es)) ≡ true) es
unfolding refs
AllRefs-asked [] = tt
AllRefs-asked ((rel, e) ∷ es) = (
  contains-add_ref e.ref e.ref (refs (pull_entries es)) ∙ rw (text_eq_refl e.ref) refl,
  AllRefs-map es (λ ref h. ground (arith, contains-add_ref ref e.ref (refs (pull_entries es)), h))
      (AllRefs-asked es),
)

module _ (p : Primitives) (plaws : PrimitiveLaws p) (int_of_text : Text → Option ℤ)
    {Server : Type 0} (kv : Keyspace Server) (laws : KeyspaceLaws kv) (namespace secret : Text)
    (key : Bytes) (host : Host) where
  -- The body that was fetched for a reference.
  abbrev pub IsFetched : Dict Bytes → Text → Type 0
  IsFetched bodies ref =
      (body : Bytes) × (lookup ref bodies ≡ some body) × (blob_ref p secret body ≡ ref)

  IsFetched-named :
      (bodies : Dict Bytes) (ref : Text)
      → AreNamed p kv namespace secret key laws bodies
      → contains ref (keys bodies) ≡ true
      → IsFetched bodies ref
  unfolding contains keys lookup
  IsFetched-named [] ref named h = absurd (ground (arith, h))
  IsFetched-named ((r, b) ∷ bodies) ref (n, named) h = elim (Bool-cases (text_eq ref r)) [
    | inl same ↦ (b, rw same refl, n ∙ sym ((text_eq_iff ref r).0 same))
    | inr other ↦
        let (body, found, right) = IsFetched-named bodies ref named (rw other at h) in
        (body, rw other found, right)
  ]

  fetch-All :
      (rs : List Text) (s : Server)
      → All (IsBacked p kv namespace secret key s) rs
      → (bodies : Dict Bytes) × (fetch p int_of_text kv namespace key host rs s ≡ fetched bodies)
        × (keys bodies ≡ rs)
        × AreNamed p kv namespace secret key laws bodies
  unfolding fetch keys
  fetch-All [] s h = ([], refl, refl, tt)
  fetch-All (ref ∷ rs) s ((nonce, body, n, named, there), h) =
      let (bodies, got, asked, right) = fetch-All rs s h in
      (
        (ref, body) ∷ bodies,
        rw
            (
              there,
              plaws.b64decode-b64encode (seal p nonce key body (blob_aad p ref)),
              open_sealed-seal p plaws nonce key body (blob_aad p ref) n,
              got,
            )
            refl,
        ap (λ t. ref ∷ t) asked,
        (named, right),
      )

  pub fetch-IsFetched :
      (es : Dict FileEntry) (s : Server)
      → AllRefs (IsBacked p kv namespace secret key s) es
      → (bodies : Dict Bytes) × (fetch p int_of_text kv namespace key host
            (refs (pull_entries es))
            s
          ≡ fetched bodies)
        × AllRefs (IsFetched bodies) es
  fetch-IsFetched es s h =
      let (bodies, got, asked, right) =
        fetch-All (refs (pull_entries es)) s
          (All-refs (IsBacked p kv namespace secret key s) es h) in
      (
        bodies,
        got,
        AllRefs-map es
            (λ ref c.
              IsFetched-named bodies ref right (subst (λ ks. contains ref ks ≡ true) (sym asked) c))
            (AllRefs-asked es),
      )
