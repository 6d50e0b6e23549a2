-- ===== src/Fileset/Codec.antt =====
-- Concrete functions that meet the laws of the primitives: a code for the values of `json`, and
-- a sealing that carries its associated data.
use ha_cluster_state_sync.Prelude.{
  ℕ, zero, suc, ◌+◌, ◌≤◌, ◌≡◌, refl, true, false, ℤ, pos, negsuc, Option, none, some, [], ◌∷◌, ◌++◌,
  Text, text_eq, text_eq_refl, length, take, drop, if◌then◌else◌, arith,
}
use ha_cluster_state_sync.Fileset.Json.{
  finite, nan, infinite, Json, null, boolean, integer, real, str, arr, obj, Items, no_items,
  an_item, Members, no_members, member,
}
use ha_cluster_state_sync.Fileset.Sealing.{Bytes, Primitives, PrimitiveLaws}
use ha_cluster_state_sync.Fileset.Opening.{take-append, drop-append}

unfoldable mutual
  size : Json → ℕ
  size null = 1
  size (boolean b) = 1
  size (integer n) = 1
  size (real r) = 1
  size (str s) = 1
  size (arr js) = suc (size_items js)
  size (obj ms) = suc (size_members ms)

  size_items : Items → ℕ
  size_items no_items = 1
  size_items (an_item j js) = suc (size j + size_items js)

  size_members : Members → ℕ
  size_members no_members = 1
  size_members (member k j ms) = suc (size j + size_members ms)

size-positive : (j : Json) → 1 ≤ size j
unfolding size
size-positive null = omega arith
size-positive (boolean b) = omega arith
size-positive (integer n) = omega arith
size-positive (real r) = omega arith
size-positive (str t) = omega arith
size-positive (arr js) = omega arith
size-positive (obj ms) = omega arith

size_items-positive : (js : Items) → 1 ≤ size_items js
unfolding size_items
size_items-positive no_items = omega arith
size_items-positive (an_item j js) = omega arith

size_members-positive : (ms : Members) → 1 ≤ size_members ms
unfolding size_members
size_members-positive no_members = omega arith
size_members-positive (member k j ms) = omega arith

unfoldable mutual
  enc : Json → Text → Text
  enc null t = 0 ∷ t
  enc (boolean false) t = 1 ∷ (0 ∷ t)
  enc (boolean true) t = 1 ∷ (1 ∷ t)
  enc (integer (pos n)) t = 2 ∷ (0 ∷ (n ∷ t))
  enc (integer (negsuc n)) t = 2 ∷ (1 ∷ (n ∷ t))
  enc (real (finite (pos n))) t = 3 ∷ (0 ∷ (n ∷ t))
  enc (real (finite (negsuc n))) t = 3 ∷ (1 ∷ (n ∷ t))
  enc (real nan) t = 3 ∷ (2 ∷ t)
  enc (real infinite) t = 3 ∷ (3 ∷ t)
  enc (str s) t = 4 ∷ (length s ∷ (s ++ t))
  enc (arr js) t = 5 ∷ enc_items js t
  enc (obj ms) t = 6 ∷ enc_members ms t

  enc_items : Items → Text → Text
  enc_items no_items t = 0 ∷ t
  enc_items (an_item j js) t = 1 ∷ enc j (enc_items js t)

  enc_members : Members → Text → Text
  enc_members no_members t = 0 ∷ t
  enc_members (member k j ms) t = 1 ∷ (length k ∷ (k ++ enc j (enc_members ms t)))

abbrev and_read :
    {A B : Type 0} → (A → Text → Option (B × Text)) → Option (A × Text) → Option (B × Text)
and_read f none = none
and_read f (some (a, t)) = f a t

abbrev boolean_in : Text → Option (Json × Text)
boolean_in [] = none
boolean_in (zero ∷ t) = some (boolean false, t)
boolean_in (suc n ∷ t) = some (boolean true, t)

abbrev integer_in : Text → Option (ℤ × Text)
integer_in (zero ∷ (n ∷ t)) = some (pos n, t)
integer_in (suc zero ∷ (n ∷ t)) = some (negsuc n, t)
integer_in t = none

abbrev real_in : Text → Option (Json × Text)
real_in (suc (suc zero) ∷ t) = some (real nan, t)
real_in (suc (suc (suc n)) ∷ t) = some (real infinite, t)
real_in t = and_read (λ n u. some (real (finite n), u)) (integer_in t)

abbrev str_in : Text → Option (Text × Text)
str_in [] = none
str_in (l ∷ t) = some (take l t, drop l t)

unfoldable mutual
  dec : ℕ → Text → Option (Json × Text)
  dec zero t = none
  dec (suc n) [] = none
  dec (suc n) (zero ∷ t) = some (null, t)
  dec (suc n) (suc zero ∷ t) = boolean_in t
  dec (suc n) (suc (suc zero) ∷ t) = and_read (λ m u. some (integer m, u)) (integer_in t)
  dec (suc n) (suc (suc (suc zero)) ∷ t) = real_in t
  dec (suc n) (suc (suc (suc (suc zero))) ∷ t) = and_read (λ s u. some (str s, u)) (str_in t)
  dec (suc n) (suc (suc (suc (suc (suc zero)))) ∷ t) =
      and_read (λ js u. some (arr js, u)) (dec_items n t)
  dec (suc n) (suc (suc (suc (suc (suc (suc c))))) ∷ t) =
      and_read (λ ms u. some (obj ms, u)) (dec_members n t)

  dec_items : ℕ → Text → Option (Items × Text)
  dec_items zero t = none
  dec_items (suc n) [] = none
  dec_items (suc n) (zero ∷ t) = some (no_items, t)
  dec_items (suc n) (suc c ∷ t) =
      and_read (λ j u. and_read (λ js v. some (an_item j js, v)) (dec_items n u)) (dec n t)

  dec_members : ℕ → Text → Option (Members × Text)
  dec_members zero t = none
  dec_members (suc n) [] = none
  dec_members (suc n) (zero ∷ t) = some (no_members, t)
  dec_members (suc n) (suc c ∷ t) =
      and_read
        (λ k u.
          and_read (λ j v. and_read (λ ms x. some (member k j ms, x)) (dec_members n v)) (dec n u))
        (str_in t)

mutual
  unfolding dec enc size

  dec-enc : (n : ℕ) (j : Json) (t : Text) → size j ≤ n → dec n (enc j t) ≡ some (j, t)
  dec-enc zero j t h = absurd (omega (arith, h, size-positive j))
  dec-enc (suc n) null t h = refl
  dec-enc (suc n) (boolean false) t h = refl
  dec-enc (suc n) (boolean true) t h = refl
  dec-enc (suc n) (integer (pos m)) t h = refl
  dec-enc (suc n) (integer (negsuc m)) t h = refl
  dec-enc (suc n) (real (finite (pos m))) t h = refl
  dec-enc (suc n) (real (finite (negsuc m))) t h = refl
  dec-enc (suc n) (real nan) t h = refl
  dec-enc (suc n) (real infinite) t h = refl
  dec-enc (suc n) (str s) t h = rw (take-append s t, drop-append s t) refl
  dec-enc (suc n) (arr js) t h = rw (dec_items-enc n js t (omega (arith, h))) refl
  dec-enc (suc n) (obj ms) t h = rw (dec_members-enc n ms t (omega (arith, h))) refl

  dec_items-enc :
      (n : ℕ) (js : Items) (t : Text)
      → size_items js ≤ n
      → dec_items n (enc_items js t) ≡ some (js, t)
  dec_items-enc zero js t h = absurd (omega (arith, h, size_items-positive js))
  dec_items-enc (suc n) no_items t h = refl
  dec_items-enc (suc n) (an_item j js) t h =
      rw (dec-enc n j (enc_items js t) (omega (arith, h)), dec_items-enc n js t (omega (arith, h)))
        refl

  dec_members-enc :
      (n : ℕ) (ms : Members) (t : Text)
      → size_members ms ≤ n
      → dec_members n (enc_members ms t) ≡ some (ms, t)
  dec_members-enc zero ms t h = absurd (omega (arith, h, size_members-positive ms))
  dec_members-enc (suc n) no_members t h = refl
  dec_members-enc (suc n) (member k j ms) t h =
      rw
        (
          take-append k (enc j (enc_members ms t)),
          drop-append k (enc j (enc_members ms t)),
          dec-enc n j (enc_members ms t) (omega (arith, h)),
          dec_members-enc n ms t (omega (arith, h)),
        )
        refl

abbrev whole : Option (Json × Text) → Option Json
whole none = none
whole (some (j, [])) = some j
whole (some (j, c ∷ t)) = none

-- The fuel for the reader stands in front.
unfoldable code : Json → Text
unfolding enc size
code j = size j ∷ enc j []

unfoldable decode : Text → Option Json
unfolding dec
decode [] = none
decode (n ∷ t) = whole (dec n t)

decode-code : (j : Json) → decode (code j) ≡ some j
unfolding decode code
decode-code j = rw (dec-enc (size j) j [] (omega arith)) refl

-- The associated data in front of the data.
abbrev sealed : Bytes → Bytes → Bytes → Bytes → Bytes
sealed key nonce text aad = length aad ∷ (aad ++ text)

abbrev unsealed : Bytes → Bytes → Bytes → Bytes → Option Bytes
unsealed key nonce [] aad = none
unsealed key nonce (n ∷ t) aad = if text_eq (take n t) aad then some (drop n t) else none

unsealed-sealed :
    (key nonce text aad : Bytes) → unsealed key nonce (sealed key nonce text aad) aad ≡ some text
unsealed-sealed key nonce text aad =
    rw (take-append aad text, drop-append aad text, text_eq_refl aad) refl

unfoldable pub primitives : Primitives
unfolding code decode
primitives = record {
  hkdf = λ info s. info ++ s;
  sha256 = λ b. b;
  hmac_sha256_hex = λ k b. k ++ b;
  encrypt = sealed;
  decrypt = unsealed;
  b64encode = λ b. b;
  b64decode = λ t. some t;
  encode = λ t. t;
  decode = λ b. some b;
  dumps = code;
  loads = decode;
}

pub primitives-laws : PrimitiveLaws primitives
unfolding primitives
primitives-laws = record {
  decrypt-encrypt = unsealed-sealed;
  encrypt_tagged = λ k n t a. omega arith;
  b64decode-b64encode = λ t. refl;
  decode-dumps = λ j. refl;
  loads-dumps = λ j d. decode-code j;
}
