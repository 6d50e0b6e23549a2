-- ===== src/Fileset/Backed.antt =====
-- custom_components/cluster_state_sync/fileset.py and backend.py: the blobs that the server holds for
-- the entries of the publisher and of the manifest.
use ha_cluster_state_sync.Prelude.{
  ℕ, suc, Bool, true, false, ◌≡◌, ◌≢◌, refl, sym, ap, ◌∙◌, ◌⊎◌, inl, inr, none, some, List, [], ◌∷◌,
  Text, text_eq, text_eq_iff, text_eq_refl, subst, length, if◌then◌else◌, Bool-cases,
}
use ha_cluster_state_sync.Dict.{Dict, lookup, contains}
use ha_cluster_state_sync.Fileset.Sealing.{
  Bytes, Primitives, blob_ref, blob_aad, manifest_aad, seal, fileset_manifest_key, fileset_blob_key,
}
use ha_cluster_state_sync.Fileset.Keyspace.{Keyspace, KeyspaceLaws}
use ha_cluster_state_sync.Fileset.Scan.{FileEntry}
use ha_cluster_state_sync.Fileset.Stored.{
  set_blob, set_blobs, set_some, set_manifest, doomed_in, delete,
}
use ha_cluster_state_sync.Fileset.Publisher.{Manifest, to_json, sealed_bodies}
use ha_cluster_state_sync.Fileset.Keys.{
  text_eq-fileset_blob_key, manifest_apart, blob_apart, prune-keeps,
}

-- `Q` of the reference of every entry.
abbrev pub AllRefs : (Text → Type 0) → Dict FileEntry → Type 0
AllRefs Q [] = Unit
AllRefs Q ((rel, e) ∷ es) = Q e.ref × AllRefs Q es

pub AllRefs-map :
    {Q R : Text → Type 0} (es : Dict FileEntry)
    → ((ref : Text) → Q ref → R ref)
    → AllRefs Q es
    → AllRefs R es
AllRefs-map [] f h = tt
AllRefs-map ((rel, e) ∷ es) f (q, h) = (f e.ref q, AllRefs-map es f h)

module _ (p : Primitives) {Server : Type 0} (kv : Keyspace Server) (namespace secret : Text)
    (key : Bytes) where
  -- The server holds a blob that opens under this reference, with a content that has it.
  abbrev pub IsBacked : Server → Text → Type 0
  IsBacked s ref =
      (nonce : Bytes) × (body : Bytes) × (length nonce ≡ 12)
      × (blob_ref p secret body ≡ ref)
      × (kv.get (fileset_blob_key namespace ref) s
          ≡ some (p.b64encode (seal p nonce key body (blob_aad p ref))))

  -- There is no manifest, or one whose entries are all backed.
  abbrev pub IsReadable : Server → Type 0
  IsReadable s =
      (kv.get (fileset_manifest_key namespace) s ≡ none)
      ⊎ ((nonce : Bytes) × (m : Manifest) × (length nonce ≡ 12)
          × (kv.get (fileset_manifest_key namespace) s
              ≡ some (p.b64encode (seal p nonce key (p.encode (to_json p m)) manifest_aad)))
          × AllRefs (IsBacked s) m.entries)

  module _ (laws : KeyspaceLaws kv) where
    get-set_blob :
        (sealed : Bytes) (r ref : Text) (s : Server)
        → kv.get (fileset_blob_key namespace ref) (set_blob p kv namespace r sealed s) ≡ (
            if text_eq r ref
            then some (p.b64encode sealed)
            else kv.get (fileset_blob_key namespace ref) s)
    get-set_blob sealed r ref s =
        laws.get-set (fileset_blob_key namespace r) (fileset_blob_key namespace ref)
          (p.b64encode sealed) s
        ∙ ap
            (λ b.
              if b then some (p.b64encode sealed) else kv.get (fileset_blob_key namespace ref) s)
            (text_eq-fileset_blob_key namespace r ref)

    set_blob-sets :
        (nonce body : Bytes) (r : Text) (s : Server)
        → length nonce ≡ 12
        → blob_ref p secret body ≡ r
        → IsBacked (set_blob p kv namespace r (seal p nonce key body (blob_aad p r)) s) r
    set_blob-sets nonce body r s n b = (
      nonce,
      body,
      n,
      b,
      get-set_blob (seal p nonce key body (blob_aad p r)) r r s ∙ rw (text_eq_refl r) refl,
    )

    set_blob-IsBacked :
        (nonce body : Bytes) (r ref : Text) (s : Server)
        → length nonce ≡ 12
        → blob_ref p secret body ≡ r
        → IsBacked s ref
        → IsBacked (set_blob p kv namespace r (seal p nonce key body (blob_aad p r)) s) ref
    set_blob-IsBacked nonce body r ref s n b (old, content, m, c, h) =
        elim (Bool-cases (text_eq r ref)) [
          | inl same ↦
              subst
                (λ x.
                  IsBacked (set_blob p kv namespace r (seal p nonce key body (blob_aad p r)) s) x)
                ((text_eq_iff r ref).0 same) (set_blob-sets nonce body r s n b)
          | inr other ↦ (
            old,
            content,
            m,
            c,
            get-set_blob (seal p nonce key body (blob_aad p r)) r ref s ∙ rw other h,
          )
        ]

    pub set_manifest-IsBacked :
        (sealed : Bytes) (ref : Text) (s : Server)
        → IsBacked s ref
        → IsBacked (set_manifest p kv namespace sealed s) ref
    set_manifest-IsBacked sealed ref s (nonce, body, n, b, h) = (
      nonce,
      body,
      n,
      b,
      laws.get-set (fileset_manifest_key namespace) (fileset_blob_key namespace ref)
            (p.b64encode sealed) s
          ∙ rw (manifest_apart namespace ref) h,
    )

    get-set_blob_manifest :
        (sealed : Bytes) (r : Text) (s : Server)
        → kv.get (fileset_manifest_key namespace) (set_blob p kv namespace r sealed s)
          ≡ kv.get (fileset_manifest_key namespace) s
    get-set_blob_manifest sealed r s =
        laws.get-set (fileset_blob_key namespace r) (fileset_manifest_key namespace)
          (p.b64encode sealed) s
        ∙ rw (blob_apart namespace r) refl

    -- Each body goes by its own reference.
    abbrev pub AreNamed : Dict Bytes → Type 0
    AreNamed [] = Unit
    AreNamed ((ref, body) ∷ bodies) = (blob_ref p secret body ≡ ref) × AreNamed bodies

    module _ (urandom : ℕ → Bytes) (twelve : (n : ℕ) → length (urandom n) ≡ 12) where
      pub set_blobs-keeps :
          (n : ℕ) (bodies : Dict Bytes) (ref : Text) (s : Server)
          → AreNamed bodies
          → IsBacked s ref
          → IsBacked (set_blobs p kv namespace (sealed_bodies p urandom key n bodies) s) ref
      unfolding sealed_bodies
      set_blobs-keeps n [] ref s h b = b
      set_blobs-keeps n ((r, body) ∷ bodies) ref s (named, h) b =
          set_blobs-keeps (suc n) bodies ref
            (set_blob p kv namespace r (seal p (urandom n) key body (blob_aad p r)) s) h
            (set_blob-IsBacked (urandom n) body r ref s (twelve n) named b)

      pub set_blobs-sets :
          (n : ℕ) (bodies : Dict Bytes) (ref : Text) (s : Server)
          → AreNamed bodies
          → lookup ref bodies ≢ none
          → IsBacked (set_blobs p kv namespace (sealed_bodies p urandom key n bodies) s) ref
      unfolding sealed_bodies lookup
      set_blobs-sets n [] ref s h there = absurd (there refl)
      set_blobs-sets n ((r, body) ∷ bodies) ref s (named, h) there =
          elim (Bool-cases (text_eq ref r)) [
            | inl same ↦
                set_blobs-keeps (suc n) bodies ref
                  (set_blob p kv namespace r (seal p (urandom n) key body (blob_aad p r)) s) h
                  (subst
                    (λ x.
                      IsBacked
                        (set_blob p kv namespace r (seal p (urandom n) key body (blob_aad p r)) s)
                        x)
                    (sym ((text_eq_iff ref r).0 same))
                    (set_blob-sets (urandom n) body r s (twelve n) named))
            | inr other ↦
                set_blobs-sets (suc n) bodies ref
                  (set_blob p kv namespace r (seal p (urandom n) key body (blob_aad p r)) s) h
                  (rw other at there)
          ]

      pub set_some-keeps :
          (stored : List Bool) (n : ℕ) (bodies : Dict Bytes) (ref : Text) (s : Server)
          → AreNamed bodies
          → IsBacked s ref
          → IsBacked (set_some p kv namespace stored (sealed_bodies p urandom key n bodies) s) ref
      unfolding sealed_bodies
      set_some-keeps stored n [] ref s h b = b
      set_some-keeps [] n ((r, body) ∷ bodies) ref s (named, h) b = b
      set_some-keeps (true ∷ stored) n ((r, body) ∷ bodies) ref s (named, h) b =
          set_some-keeps stored (suc n) bodies ref
            (set_blob p kv namespace r (seal p (urandom n) key body (blob_aad p r)) s) h
            (set_blob-IsBacked (urandom n) body r ref s (twelve n) named b)
      set_some-keeps (false ∷ stored) n ((r, body) ∷ bodies) ref s (named, h) b =
          set_some-keeps stored (suc n) bodies ref s h b

    pub set_blobs_manifest :
        (sealed : Dict Bytes) (s : Server)
        → kv.get (fileset_manifest_key namespace) (set_blobs p kv namespace sealed s)
          ≡ kv.get (fileset_manifest_key namespace) s
    set_blobs_manifest [] s = refl
    set_blobs_manifest ((r, b) ∷ sealed) s =
        set_blobs_manifest sealed (set_blob p kv namespace r b s) ∙ get-set_blob_manifest b r s

    pub set_some_manifest :
        (stored : List Bool) (sealed : Dict Bytes) (s : Server)
        → kv.get (fileset_manifest_key namespace) (set_some p kv namespace stored sealed s)
          ≡ kv.get (fileset_manifest_key namespace) s
    set_some_manifest stored [] s = refl
    set_some_manifest [] ((r, b) ∷ sealed) s = refl
    set_some_manifest (true ∷ stored) ((r, b) ∷ sealed) s =
        set_some_manifest stored sealed (set_blob p kv namespace r b s)
        ∙ get-set_blob_manifest b r s
    set_some_manifest (false ∷ stored) ((r, b) ∷ sealed) s = set_some_manifest stored sealed s

    pub prune-IsBacked :
        (keep : List Text) (ref : Text) (s : Server)
        → contains ref keep ≡ true
        → IsBacked s ref
        → IsBacked (delete p kv namespace (doomed_in p kv namespace keep s) s).1 ref
    prune-IsBacked keep ref s k (nonce, body, n, b, h) =
        (nonce, body, n, b, prune-keeps p kv laws namespace keep ref s k ∙ h)

    -- What leaves the manifest alone and keeps every blob keeps it readable.
    pub keeps-IsReadable :
        (s t : Server)
        → kv.get (fileset_manifest_key namespace) t ≡ kv.get (fileset_manifest_key namespace) s
        → ((ref : Text) → IsBacked s ref → IsBacked t ref)
        → IsReadable s
        → IsReadable t
    keeps-IsReadable s t same keeps (inl absent) = inl (same ∙ absent)
    keeps-IsReadable s t same keeps (inr (nonce, m, n, h, backed)) =
        inr (nonce, m, n, same ∙ h, AllRefs-map m.entries keeps backed)

    pub set_manifest-IsReadable :
        (nonce : Bytes) (m : Manifest) (s : Server)
        → length nonce ≡ 12
        → AllRefs (IsBacked s) m.entries
        → IsReadable
            (set_manifest p kv namespace (seal p nonce key (p.encode (to_json p m)) manifest_aad) s)
    set_manifest-IsReadable nonce m s n backed = inr (
      nonce,
      m,
      n,
      laws.get-set (fileset_manifest_key namespace) (fileset_manifest_key namespace)
            (p.b64encode (seal p nonce key (p.encode (to_json p m)) manifest_aad)) s
          ∙ rw (text_eq_refl (fileset_manifest_key namespace)) refl,
      AllRefs-map m.entries
          (λ ref.
            set_manifest-IsBacked (seal p nonce key (p.encode (to_json p m)) manifest_aad) ref s)
          backed,
    )
