-- ===== src/Promoter/Holds.antt =====
-- cluster_promoter.py: the maintenance hold as the promoter reads it, `_hold_origin`,
-- `_text_is_expired`, `_hold_is_expired`, `_read_cluster_hold`.
use ha_cluster_state_sync.Prelude.{
  ℕ, Bool, true, false, Option, none, some, List, [], ◌∷◌, Text, codes, starts_with, drop, ltb,
  if◌then◌else◌,
}
use ha_cluster_state_sync.Str.{strip, lower, splitlines}
use ha_cluster_state_sync.Promoter.World.{Content, utf8, broken, Env, Config, Failure}
use ha_cluster_state_sync.Promoter.Monad.{M, pure, raise, call, or_else, gets}
use ha_cluster_state_sync.Promoter.Keys.{hold_key}

-- `value or None`
abbrev pub or_none : Text → Option Text
or_none [] = none
or_none (c ∷ t) = some (c ∷ t)

unfoldable pub origin_in : List Text → Option Text
origin_in [] = none
origin_in (line ∷ lines) =
    let rest = origin_in lines in
    if starts_with (codes "origin:") (lower (strip line))
    then or_none (strip (drop 7 (strip line)))
    else rest

unfoldable pub hold_origin : Text → Option Text
unfolding origin_in
hold_origin text = origin_in (splitlines text)

-- The deadline of the first `expires:` line, or none where there is no such line or its stamp is
-- no date.
unfoldable pub deadline_in : (Text → Option ℕ) → List Text → Option ℕ
deadline_in fromisoformat [] = none
deadline_in fromisoformat (line ∷ lines) =
    let rest = deadline_in fromisoformat lines in
    if starts_with (codes "expires:") (lower line)
    then fromisoformat (strip (drop 8 line))
    else rest

abbrev pub past : Option ℕ → ℕ → Bool
past none now = false
past (some deadline) now = ltb deadline now

unfoldable pub text_is_expired : (Text → Option ℕ) → ℕ → Text → Bool
unfolding deadline_in
text_is_expired fromisoformat now text = past (deadline_in fromisoformat (splitlines text)) now

module _ {Server : Type 0} (env : Env Server) where
  -- `read_text(encoding="utf-8")` raises on bytes that are not UTF-8, and only an `OSError` is
  -- caught.
  abbrev pub content_is_expired : Bool → Option Content → M Server Bool
  content_is_expired refused none = pure false
  content_is_expired true (some c) = pure false
  content_is_expired false (some (broken t)) = raise Failure.value_error
  content_is_expired false (some (utf8 t)) = gets (λ w. text_is_expired env.fromisoformat w.now t)

  unfoldable pub hold_is_expired : M Server Bool
  hold_is_expired w = content_is_expired w.refusals.read_hold w.hold_file w

  unfoldable pub read_cluster_hold : Config → M Server (Option Text)
  read_cluster_hold c = or_else (call (λ s. (env.redis.get (hold_key c.namespace) s, s))) none
