-- ===== src/Fileset/Opening.antt =====
-- What fileset_pull.py reads of what fileset.py seals: crypto.py, the manifest, the blobs.
use ha_cluster_state_sync.Prelude.{
  ◌≡◌, refl, ap, subst, false, ℤ, pos, Option, none, some, List, [], ◌∷◌, ◌++◌, Text, text_eq,
  length, take, drop, leb, length-append, arith,
}
use ha_cluster_state_sync.Dict.{Dict, NodupKeys, lookup, sorted, sorted-NodupKeys}
use ha_cluster_state_sync.Fileset.Json.{dict_of, DistinctKeys, DistinctMembers}
use ha_cluster_state_sync.Fileset.Sealing.{
  Bytes, Primitives, PrimitiveLaws, blob_ref, seal, open_sealed,
}
use ha_cluster_state_sync.Fileset.Keyspace.{Keyspace}
use ha_cluster_state_sync.Fileset.Scan.{FileEntry}
use ha_cluster_state_sync.Fileset.Publisher.{Manifest, manifest_json, to_json, entry_members}
use ha_cluster_state_sync.Fileset.Parsed.{
  fine, PullEntry, Parsed, parsed, item_of, int, entry_of_json, entries_of_dict, refs,
}
use ha_cluster_state_sync.Fileset.Pull.{Host, parse}

pub take-append : (a b : Bytes) → take (length a) (a ++ b) ≡ a
take-append [] b = refl
take-append (x ∷ a) b = ap (λ t. x ∷ t) (take-append a b)

pub drop-append : (a b : Bytes) → drop (length a) (a ++ b) ≡ b
drop-append [] b = refl
drop-append (x ∷ a) b = drop-append a b

-- What the publisher takes for a file, as the pull reads it.
abbrev pub pull_entries : Dict FileEntry → Dict PullEntry
pull_entries [] = []
pull_entries ((rel, e) ∷ es) = (rel, record { ref = e.ref; mode = pos e.mode }) ∷ pull_entries es

abbrev pub parsed_of : Manifest → Parsed
parsed_of m = record { generation = pos m.generation; entries = pull_entries (sorted m.entries) }

entries_of_dict-entry_members :
    (es : Dict FileEntry) → entries_of_dict (dict_of (entry_members es)) ≡ fine (pull_entries es)
unfolding entries_of_dict dict_of entry_of_json item_of lookup text_eq
entries_of_dict-entry_members [] = refl
entries_of_dict-entry_members ((rel, e) ∷ es) = rw (entries_of_dict-entry_members es) refl

parsed-manifest_json :
    (int_of_text : Text → Option ℤ) (m : Manifest)
    → parsed int_of_text (manifest_json m) ≡ fine (parsed_of m)
unfolding parsed manifest_json item_of lookup dict_of text_eq int
parsed-manifest_json int_of_text m = rw (entries_of_dict-entry_members (sorted m.entries)) refl

lookup-entry_members :
    (k : Text) (es : Dict FileEntry)
    → lookup k es ≡ none
    → lookup k (dict_of (entry_members es)) ≡ none
unfolding lookup dict_of
lookup-entry_members k [] h = refl
lookup-entry_members k ((rel, e) ∷ es) h = ground (arith, h, lookup-entry_members k es)

entry_members-DistinctKeys :
    (es : Dict FileEntry)
    → NodupKeys es
    → NodupKeys (dict_of (entry_members es)) × DistinctMembers (entry_members es)
unfolding dict_of lookup text_eq DistinctKeys DistinctMembers
entry_members-DistinctKeys [] u = (tt, tt)
entry_members-DistinctKeys ((rel, e) ∷ es) (fresh, u) =
    let (d, ds) = entry_members-DistinctKeys es u in
    (
      (lookup-entry_members rel es fresh, d),
      (((refl, (refl, (refl, (refl, tt)))), (tt, (tt, (tt, (tt, tt))))), ds),
    )

manifest_json-DistinctKeys : (m : Manifest) → NodupKeys m.entries → DistinctKeys (manifest_json m)
unfolding manifest_json dict_of lookup text_eq DistinctKeys DistinctMembers
manifest_json-DistinctKeys m u = (
  (refl, (refl, (refl, (refl, tt)))),
  (
    entry_members-DistinctKeys (sorted m.entries) (sorted-NodupKeys m.entries u),
    (tt, (tt, (tt, tt))),
  ),
)

module _ (p : Primitives) (laws : PrimitiveLaws p) where
  pub open_sealed-seal :
      (nonce key text aad : Bytes)
      → length nonce ≡ 12
      → open_sealed p key (seal p nonce key text aad) aad ≡ some text
  unfolding open_sealed seal
  open_sealed-seal nonce key text aad n =
      let c = p.encrypt key nonce text aad in
      let long : leb (length (nonce ++ c)) 12 ≡ false =
        ground (arith, length-append nonce c, laws.encrypt_tagged key nonce text aad) in
      let front : take 12 (nonce ++ c) ≡ nonce =
        subst (λ k. take k (nonce ++ c) ≡ nonce) n (take-append nonce c) in
      let back : drop 12 (nonce ++ c) ≡ c =
        subst (λ k. drop k (nonce ++ c) ≡ c) n (drop-append nonce c) in
      rw (long, front, back) (laws.decrypt-encrypt key nonce text aad)

  module _ (int_of_text : Text → Option ℤ) {Server : Type 0} (kv : Keyspace Server)
      (namespace : Text) (key : Bytes) (host : Host) where
    pub parse-to_json :
        (m : Manifest)
        → NodupKeys m.entries
        → parse p int_of_text kv namespace key host (p.encode (to_json p m)) ≡ fine (parsed_of m)
    unfolding parse to_json
    parse-to_json m u =
        rw
          (
            laws.decode-dumps (manifest_json m),
            laws.loads-dumps (manifest_json m) (manifest_json-DistinctKeys m u),
          )
          (parsed-manifest_json int_of_text m)

    -- The blobs that are asked for are all there.
    abbrev pub Answers : Text → List Text → Dict Bytes → Type 0
    Answers secret [] bodies = Unit
    Answers secret (ref ∷ refs) bodies =
        ((body : Bytes) × (lookup ref bodies ≡ some body) × (blob_ref p secret body ≡ ref))
        × Answers secret refs bodies
