-- ===== src/Fileset/Keys.antt =====
-- The keys of the fileset on the server, and what a prune deletes.
use ha_cluster_state_sync.Prelude.{
  ◌≡◌, refl, sym, ap, ◌∙◌, true, false, List, [], ◌∷◌, ◌++◌, Text, codes, text_eq, text_eq_iff,
  starts_with, length, drop, arith, Bool-cases, inl, inr, append_assoc,
}
use ha_cluster_state_sync.Dict.{contains}
use ha_cluster_state_sync.Fileset.Sealing.{Primitives, fileset_manifest_key, fileset_blob_key}
use ha_cluster_state_sync.Fileset.Keyspace.{Keyspace, KeyspaceLaws}
use ha_cluster_state_sync.Fileset.Stored.{ref_of, doomed, doomed_in, delete}

text_eq-append : (t a b : Text) → text_eq (t ++ a) (t ++ b) ≡ text_eq a b
unfolding text_eq
text_eq-append [] a b = refl
text_eq-append (c ∷ t) a b = ground (arith, text_eq-append t a b)

pub text_eq-fileset_blob_key :
    (namespace a b : Text)
    → text_eq (fileset_blob_key namespace a) (fileset_blob_key namespace b) ≡ text_eq a b
unfolding fileset_blob_key
text_eq-fileset_blob_key namespace a b =
    text_eq-append (codes "ha:cluster_state_sync:") (namespace ++ (codes ":fileset:blob:" ++ a))
      (namespace ++ (codes ":fileset:blob:" ++ b))
    ∙ (text_eq-append namespace (codes ":fileset:blob:" ++ a) (codes ":fileset:blob:" ++ b)
        ∙ text_eq-append (codes ":fileset:blob:") a b)

pub manifest_apart :
    (namespace a : Text)
    → text_eq (fileset_manifest_key namespace) (fileset_blob_key namespace a) ≡ false
unfolding fileset_blob_key fileset_manifest_key text_eq
manifest_apart namespace a =
    text_eq-append (codes "ha:cluster_state_sync:") (namespace ++ codes ":fileset:manifest")
      (namespace ++ (codes ":fileset:blob:" ++ a))
    ∙ text_eq-append namespace (codes ":fileset:manifest") (codes ":fileset:blob:" ++ a)

text_eq_sym : (a b : Text) → text_eq a b ≡ text_eq b a
unfolding text_eq
text_eq_sym a b = ground (arith, text_eq_iff a b, text_eq_iff b a)

pub blob_apart :
    (namespace a : Text)
    → text_eq (fileset_blob_key namespace a) (fileset_manifest_key namespace) ≡ false
blob_apart namespace a =
    text_eq_sym (fileset_blob_key namespace a) (fileset_manifest_key namespace)
    ∙ manifest_apart namespace a

starts_with-append : (t a b : Text) → starts_with (t ++ a) (t ++ b) ≡ starts_with a b
unfolding starts_with
starts_with-append [] a b = refl
starts_with-append (c ∷ t) a b = ground (arith, starts_with-append t a b)

manifest_starts :
    (namespace : Text)
    → starts_with (fileset_blob_key namespace []) (fileset_manifest_key namespace) ≡ false
unfolding fileset_blob_key fileset_manifest_key starts_with
manifest_starts namespace =
    starts_with-append (codes "ha:cluster_state_sync:")
      (namespace ++ (codes ":fileset:blob:" ++ [])) (namespace ++ codes ":fileset:manifest")
    ∙ starts_with-append namespace (codes ":fileset:blob:" ++ []) (codes ":fileset:manifest")

drop-append : (t a : Text) → drop (length t) (t ++ a) ≡ a
drop-append [] a = refl
drop-append (c ∷ t) a = drop-append t a

blob_key-append :
    (namespace ref : Text) → fileset_blob_key namespace ref ≡ fileset_blob_key namespace [] ++ ref
unfolding fileset_blob_key
blob_key-append namespace ref = rw (append_assoc namespace (codes ":fileset:blob:") ref) refl

-- The reference of a blob's key.
ref_of-fileset_blob_key :
    (p : Primitives) {Server : Type 0} (kv : Keyspace Server) (namespace ref : Text)
    → ref_of p kv namespace (fileset_blob_key namespace ref) (fileset_blob_key namespace []) ≡ ref
unfolding ref_of
ref_of-fileset_blob_key p kv namespace ref =
    ap (drop (length (fileset_blob_key namespace []))) (blob_key-append namespace ref)
    ∙ drop-append (fileset_blob_key namespace []) ref

module _ (p : Primitives) {Server : Type 0} (kv : Keyspace Server) (laws : KeyspaceLaws kv)
    (namespace : Text) where
  get-delete :
      (k : Text) (keys : List Text) (s : Server)
      → contains k keys ≡ false
      → kv.get k (delete p kv namespace keys s).1 ≡ kv.get k s
  unfolding contains delete
  get-delete k [] s h = refl
  get-delete k (key ∷ keys) s h =
      ground (arith, get-delete k keys (kv.del key s), laws.get-del key k s, text_eq_sym k key)

  doomed_kept :
      (keep keys : List Text) (ref : Text)
      → contains ref keep ≡ true
      → contains (fileset_blob_key namespace ref) (doomed p kv namespace keep keys) ≡ false
  unfolding contains doomed
  doomed_kept keep [] ref h = refl
  doomed_kept keep (key ∷ keys) ref h =
      elim (Bool-cases (text_eq (fileset_blob_key namespace ref) key)) [
        | inl same ↦
            let e = (text_eq_iff (fileset_blob_key namespace ref) key).0 same in
            rw (sym e, ref_of-fileset_blob_key p kv namespace ref, h) (doomed_kept keep keys ref h)
        | inr other ↦ ground (arith, other, doomed_kept keep keys ref h)
      ]

  doomed_within :
      (keep keys : List Text) (k : Text)
      → contains k keys ≡ false
      → contains k (doomed p kv namespace keep keys) ≡ false
  unfolding contains doomed
  doomed_within keep [] k h = refl
  doomed_within keep (key ∷ keys) k h = ground (arith, doomed_within keep keys k)

  not_scanned :
      (s : Server)
      → contains (fileset_manifest_key namespace) (kv.scan (fileset_blob_key namespace []) s)
        ≡ false
  not_scanned s = ground (
    arith,
    manifest_starts namespace,
    laws.scan-sound (fileset_blob_key namespace []) (fileset_manifest_key namespace) s,
  )

  pub prune-keeps :
      (keep : List Text) (ref : Text) (s : Server)
      → contains ref keep ≡ true
      → kv.get
          (fileset_blob_key namespace ref)
          (delete p kv namespace (doomed_in p kv namespace keep s) s).1
        ≡ kv.get (fileset_blob_key namespace ref) s
  prune-keeps keep ref s h =
      get-delete (fileset_blob_key namespace ref) (doomed_in p kv namespace keep s) s
        (doomed_kept keep (kv.scan (fileset_blob_key namespace []) s) ref h)

  pub prune-manifest :
      (keep : List Text) (s : Server)
      → kv.get
          (fileset_manifest_key namespace)
          (delete p kv namespace (doomed_in p kv namespace keep s) s).1
        ≡ kv.get (fileset_manifest_key namespace) s
  prune-manifest keep s =
      get-delete (fileset_manifest_key namespace) (doomed_in p kv namespace keep s) s (
        doomed_within keep (kv.scan (fileset_blob_key namespace []) s)
          (fileset_manifest_key namespace) (not_scanned s))
