-- ===== src/Promoter/Console.antt =====
-- cluster_promoter.py: the commands on the cluster-wide hold, their exit codes and output.
use ha_cluster_state_sync.Prelude.{
  ◌≡◌, ◌≢◌, ◌⊎◌, refl, ◌∙◌, ap, sym, false, Option, none, some, [], ◌∷◌, ◌++◌, Text, codes,
  append_assoc, arith, text_eq_refl, starts_with,
}
use ha_cluster_state_sync.Str.{strip, lower, lstrip}
use ha_cluster_state_sync.Store.{Redis, RedisLaws}
use ha_cluster_state_sync.Promoter.World.{World, ok}
use ha_cluster_state_sync.Promoter.Keys.{leader_key, hold_key, hold_key-ne-leader_key}
use ha_cluster_state_sync.Promoter.Commands.{
  cluster_hold_body, with_reason, set_cluster_hold, clear_cluster_hold, show_cluster_hold, shown,
  shown_lines, printed, or_text,
}
use ha_cluster_state_sync.Hold.Format.{hold_body, reason_lines, join_lines, is_structured}
use ha_cluster_state_sync.Hold.Lines.{IsWord, strip-origin, append-nonempty}
use ha_cluster_state_sync.Hold.RoundTrip.{IsReason, fields, line_of-word, hold_body-lines}
use ha_cluster_state_sync.Hold.Agreement.{IsHuman, hold_body-agreement}

with_reason_lem :
    (reason node_id : Text)
    → node_id ≢ []
    → with_reason reason node_id
      ≡ join_lines (reason_lines reason ++ ((codes "origin: " ++ node_id) ∷ [])) ++ codes "\n"
unfolding join_lines
with_reason_lem [] node_id named = refl
with_reason_lem (c ∷ reason) node_id named =
    sym (append_assoc (c ∷ reason) (codes "\norigin: " ++ node_id) (codes "\n"))

-- The console writes the text that `hold.hold_body` writes for the same reason and origin.
pub cluster_hold_body-hold_body :
    (reason node_id : Text)
    → node_id ≢ []
    → cluster_hold_body reason node_id ≡ hold_body reason (some node_id) none
unfolding cluster_hold_body hold_body
cluster_hold_body-hold_body reason [] named = absurd (named refl)
cluster_hold_body-hold_body reason (c ∷ node_id) named =
    with_reason_lem (strip reason) (c ∷ node_id) named

-- The line that the status command prints for a hold with a one-line reason.
abbrev pub status_line : Text → Text → Text
status_line node_id reason = codes "set by " ++ (node_id ++ (codes ": " ++ reason))

or_text-nonempty : (t u : Text) → t ≢ [] → or_text t u ≡ t
or_text-nonempty [] u h = absurd (h refl)
or_text-nonempty (c ∷ t) u h = refl

printed-nonempty : (t : Text) → t ≢ [] → printed (some t) ≡ some (shown t)
printed-nonempty [] h = absurd (h refl)
printed-nonempty (c ∷ t) h = refl

-- A reason of one line, with no blank at its ends, that no reader takes for a field.
pub record IsPlain (reason : Text) : Type 0 where
  pub word : IsWord reason
  pub human : IsHuman reason
  pub unstructured : is_structured reason ≡ false

strip-word : (t : Text) → IsWord t → strip t ≡ t
unfolding strip
strip-word t h = ap lstrip h.right ∙ h.left

plain-IsReason : (reason : Text) → IsPlain reason → IsReason reason []
unfolding join_lines
plain-IsReason reason h = record {
  one_line = (h.word.one_line, tt);
  unstructured = (h.unstructured, tt);
  stripped = strip-word reason h.word;
  nonempty = h.word.nonempty;
}

shown_lines-fields :
    (node_id : Text) → IsWord node_id → shown_lines (fields (some node_id) none) ≡ []
unfolding shown_lines starts_with lower
shown_lines-fields node_id named =
    rw (line_of-word (codes "origin:") node_id named.nonempty, strip-origin node_id named) refl

shown_lines-plain :
    (reason node_id : Text)
    → IsPlain reason
    → IsWord node_id
    → shown_lines (reason ∷ fields (some node_id) none) ≡ reason ∷ []
unfolding shown_lines
shown_lines-plain reason node_id h named =
    let same = strip-word reason h.word in
    rw (shown_lines-fields node_id named, h.human.no_origin, same, h.human.no_deadline) refl

shown-plain :
    (reason node_id : Text)
    → IsPlain reason
    → IsWord node_id
    → shown (hold_body reason (some node_id) none) ≡ status_line node_id reason
unfolding shown join_lines
shown-plain reason node_id h named =
    let lines = hold_body-lines reason [] (some node_id) none (plain-IsReason reason h) named tt in
    let origin =
      (hold_body-agreement (λ _. none) 0 reason [] (some node_id) none (plain-IsReason reason h)
        (h.human, tt) named tt).0 in
    rw
      (
        origin,
        lines,
        shown_lines-plain reason node_id h named,
        strip-word reason h.word,
        or_text-nonempty reason (codes "no reason given") h.word.nonempty,
      )
      refl

hold_body-nonempty : (reason : Text) (o e : Option Text) → hold_body reason o e ≢ []
unfolding hold_body
hold_body-nonempty reason o e = append-nonempty _ (codes "\n") (λ same. cc)

module _ {Server : Type 0} (redis : Redis Server) (laws : RedisLaws redis) (namespace : Text) where
  -- The two commands of the console never report a hold that did not land. `set_cluster_hold` ends
  -- with 0, and the hold of the cluster is then the text that `hold.hold_body` writes for that
  -- reason and node, or with 1; `clear_cluster_hold` ends with 0, and there is then no hold of the
  -- cluster, or with 1. Each ends with 0 where no command fails, and neither touches the lease. The
  -- node's name is not empty.
  pub set_cluster_hold-lands :
      (node_id reason : Text) (w : World Server)
      → node_id ≢ []
      → ((((set_cluster_hold redis namespace node_id reason w).0 ≡ ok 0)
            × (redis.get
                  (hold_key namespace)
                  (set_cluster_hold redis namespace node_id reason w).1.server
                ≡ some (hold_body reason (some node_id) none)))
          ⊎ (((set_cluster_hold redis namespace node_id reason w).0 ≡ ok 1) × (w.links ≢ [])))
        × ((((clear_cluster_hold redis namespace w).0 ≡ ok 0)
              × (redis.get (hold_key namespace) (clear_cluster_hold redis namespace w).1.server
                  ≡ none))
            ⊎ (((clear_cluster_hold redis namespace w).0 ≡ ok 1) × (w.links ≢ [])))
        × (redis.get
              (leader_key namespace)
              (set_cluster_hold redis namespace node_id reason w).1.server
            ≡ redis.get (leader_key namespace) w.server)
        × (redis.get (leader_key namespace) (clear_cluster_hold redis namespace w).1.server
            ≡ redis.get (leader_key namespace) w.server)
  unfolding set_cluster_hold clear_cluster_hold
  set_cluster_hold-lands node_id reason w named =
      let key = hold_key namespace in
      let leader = leader_key namespace in
      let body = cluster_hold_body reason node_id in
      let written = laws.get-set key key body w.server in
      let dropped = laws.get-del key key w.server in
      let apart = hold_key-ne-leader_key namespace in
      let left = laws.get-set key leader body w.server in
      let kept = laws.get-del key leader w.server in
      let same = text_eq_refl key in
      let agreed = cluster_hold_body-hold_body reason node_id named in
      (ground arith, ground arith, ground arith, ground arith)

  -- What one console raises, another shows: after `set_cluster_hold` where no command fails,
  -- `show_cluster_hold` prints the node and the reason and ends with 0. The reason is one plain
  -- line and the name of the node one line, neither of them empty or with a blank at its ends.
  pub set_cluster_hold-shown :
      (reason node_id : Text) (w : World Server)
      → w.links ≡ []
      → IsPlain reason
      → IsWord node_id
      → (show_cluster_hold redis namespace (set_cluster_hold redis namespace node_id reason w).1).0
        ≡ ok (0, some (status_line node_id reason))
  unfolding set_cluster_hold show_cluster_hold
  set_cluster_hold-shown reason node_id w reached h named =
      let key = hold_key namespace in
      let body = hold_body reason (some node_id) none in
      rw
        (
          reached,
          laws.get-set key key (cluster_hold_body reason node_id) w.server,
          text_eq_refl key,
          cluster_hold_body-hold_body reason node_id named.nonempty,
          printed-nonempty body (hold_body-nonempty reason (some node_id) none),
          shown-plain reason node_id h named,
        )
        refl
