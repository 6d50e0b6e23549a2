-- ===== src/Fileset/Sealing.antt =====
-- custom_components/cluster_state_sync/crypto.py, and const.py: `fileset_manifest_key`,
-- `fileset_blob_key`, which fileset_pull.py mirrors.
use ha_cluster_state_sync.Prelude.{
  ℕ, ◌<◌, ◌≡◌, Option, none, some, ◌++◌, Text, codes, length, take, drop, leb, if◌then◌else◌,
}
use ha_cluster_state_sync.Fileset.Json.{Json, DistinctKeys}

abbrev pub Bytes : Type 0
Bytes = Text

-- What the code calls of `cryptography`, `hashlib`, `hmac`, `base64` and `json`. `encrypt` and `decrypt` are
-- AES-GCM: key, nonce, data, associated data. `hkdf` is HKDF-SHA256 of 32 bytes without salt.
pub record Primitives : Type 0 where
  pub hkdf : (info : Bytes) → Bytes → Bytes
  pub sha256 : Bytes → Bytes
  pub hmac_sha256_hex : (key : Bytes) → Bytes → Text
  pub encrypt : Bytes → Bytes → Bytes → Bytes → Bytes
  pub decrypt : Bytes → Bytes → Bytes → Bytes → Option Bytes
  pub b64encode : Bytes → Text
  pub b64decode : Text → Option Bytes
  pub encode : Text → Bytes
  pub decode : Bytes → Option Text
  pub dumps : Json → Text
  pub loads : Text → Option Json

-- `dumps` writes ASCII, which UTF-8 carries.
pub record PrimitiveLaws (p : Primitives) : Type 0 where
  pub decrypt-encrypt :
      (key nonce text aad : Bytes)
      → p.decrypt key nonce (p.encrypt key nonce text aad) aad ≡ some text
  pub encrypt_tagged : (key nonce text aad : Bytes) → 0 < length (p.encrypt key nonce text aad)
  pub b64decode-b64encode : (text : Bytes) → p.b64decode (p.b64encode text) ≡ some text
  pub decode-dumps : (j : Json) → p.decode (p.encode (p.dumps j)) ≡ some (p.dumps j)
  pub loads-dumps : (j : Json) → DistinctKeys j → p.loads (p.dumps j) ≡ some j

-- FILESET_INFO
abbrev pub fileset_info : Bytes
fileset_info = codes "cluster_state_sync:fileset:v2"

-- MANIFEST_AAD
abbrev pub manifest_aad : Bytes
manifest_aad = codes "cluster_state_sync:fileset:manifest"

-- _NONCE_BYTES
abbrev pub nonce_bytes : ℕ
nonce_bytes = 12

module _ (p : Primitives) where
  unfoldable pub derive_fileset_key : (secret : Text) → Bytes
  derive_fileset_key secret = p.hkdf fileset_info (p.encode secret)

  unfoldable pub blob_ref : (secret : Text) (plaintext : Bytes) → Text
  blob_ref secret plaintext = p.hmac_sha256_hex (p.encode secret) (p.sha256 plaintext)

  unfoldable pub blob_aad : (ref : Text) → Bytes
  blob_aad ref = codes "cluster_state_sync:fileset:blob:" ++ p.encode ref

  -- `nonce` is what `os.urandom` gives.
  unfoldable pub seal : (nonce key plaintext aad : Bytes) → Bytes
  seal nonce key plaintext aad = nonce ++ p.encrypt key nonce plaintext aad

  -- None is a `FilesetCryptoError`.
  unfoldable pub open_sealed : (key sealed aad : Bytes) → Option Bytes
  open_sealed key sealed aad =
      if leb (length sealed) nonce_bytes
      then none
      else p.decrypt key (take nonce_bytes sealed) (drop nonce_bytes sealed) aad

unfoldable pub fileset_manifest_key : (namespace : Text) → Text
fileset_manifest_key namespace =
    codes "ha:cluster_state_sync:" ++ (namespace ++ codes ":fileset:manifest")

unfoldable pub fileset_blob_key : (namespace ref : Text) → Text
fileset_blob_key namespace ref =
    codes "ha:cluster_state_sync:" ++ (namespace ++ (codes ":fileset:blob:" ++ ref))
