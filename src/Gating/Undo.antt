-- ===== src/Gating/Undo.antt =====
-- gating.py: what a gate has switched off, told from the log of its calls.
use ha_cluster_state_sync.Prelude.{
  ◌≡◌, refl, Bool, true, false, ◌&&◌, Option, none, some, List, [], ◌∷◌, arith, if◌then◌else◌, ◌∙◌,
  ap,
}
use ha_cluster_state_sync.Gating.{
  Domain, recorder, automation, Call, House, Gate, is_false, call, reconcile, async_apply,
  async_restore, passes, new_gate, on_recorder, on_automations,
}

abbrev same_domain : Domain → Domain → Bool
same_domain recorder recorder = true
same_domain recorder automation = false
same_domain automation recorder = false
same_domain automation automation = true

-- A call fits what went before if it switches on what is off, or off what is on.
abbrev step : Bool → Bool → Option Bool
step on off = if on then (if off then some false else none) else (if off then none else some true)

abbrev after : Bool → Option Bool → Option Bool
after on none = none
after on (some off) = step on off

-- Whether the domain is off after the calls of the log that succeeded: `none` where some call
-- switched on what this gate had not switched off, or off what it had.
unfoldable pub replay : Domain → List Call → Option Bool
replay domain [] = some false
replay domain (c ∷ older) =
    let before = replay domain older in
    if c.succeeded && same_domain c.domain domain then after c.on before else before

-- The log fits together, and the gate knows what it has left off.
pub record IsHonest (s : Gate × House) : Type 0 where
  pub recorder_side : replay recorder s.1.log ≡ some (is_false s.0.recorder_state)
  pub automation_side : replay automation s.1.log ≡ some (is_false s.0.automation_state)

-- A reconciliation keeps its own domain honest, and says nothing of another.
reconcile-honest :
    (domain : Domain) (target_all is_leader : Bool) (state : Option Bool) (h : House)
    → replay domain h.log ≡ some (is_false state)
    → (replay domain (reconcile domain target_all is_leader state h).1.log
        ≡ some (is_false (reconcile domain target_all is_leader state h).0))
unfolding reconcile call replay
reconcile-honest recorder target_all is_leader state h e = ground arith
reconcile-honest automation target_all is_leader state h e = ground arith

reconcile-apart :
    (domain other : Domain) (target_all is_leader : Bool) (state : Option Bool) (h : House)
    → same_domain domain other ≡ false
    → (replay other (reconcile domain target_all is_leader state h).1.log ≡ replay other h.log)
unfolding reconcile call replay
reconcile-apart domain other target_all is_leader state h e = ground arith

on_recorder-IsHonest :
    (is_leader : Bool) (s : Gate × House) → IsHonest s → IsHonest (on_recorder is_leader s)
on_recorder-IsHonest is_leader (g, h) ok = record {
  recorder_side = reconcile-honest recorder false is_leader g.recorder_state h ok.recorder_side;
  automation_side =
      reconcile-apart recorder automation false is_leader g.recorder_state h refl
      ∙ ok.automation_side;
}

on_automations-IsHonest :
    (is_leader : Bool) (s : Gate × House) → IsHonest s → IsHonest (on_automations is_leader s)
on_automations-IsHonest is_leader (g, h) ok = record {
  recorder_side =
      reconcile-apart automation recorder true is_leader g.automation_state h refl
      ∙ ok.recorder_side;
  automation_side =
      reconcile-honest automation true is_leader g.automation_state h ok.automation_side;
}

either-IsHonest :
    (b : Bool) (s t : Gate × House) → IsHonest s → IsHonest t → IsHonest (if b then s else t)
either-IsHonest true s t s_ok t_ok = s_ok
either-IsHonest false s t s_ok t_ok = t_ok

async_apply-IsHonest :
    (is_leader : Bool) (s : Gate × House) → IsHonest s → IsHonest (async_apply is_leader s)
unfolding async_apply
async_apply-IsHonest is_leader (g, h) ok =
    let first = if g.gate_recorder then on_recorder is_leader (g, h) else (g, h) in
    let first_ok =
      either-IsHonest g.gate_recorder (on_recorder is_leader (g, h)) (g, h)
        (on_recorder-IsHonest is_leader (g, h) ok) ok in
    either-IsHonest g.gate_automations (on_automations is_leader first) first
      (on_automations-IsHonest is_leader first first_ok) first_ok

passes-keeps : (roles : List Bool) (s : Gate × House) → IsHonest s → IsHonest (passes roles s)
unfolding passes
passes-keeps [] s ok = ok
passes-keeps (is_leader ∷ roles) s ok =
    passes-keeps roles (async_apply is_leader s) (async_apply-IsHonest is_leader s ok)

abbrev pub fresh : Bool → Bool → List Bool → Gate × House
fresh gate_recorder gate_automations replies =
    (new_gate gate_recorder gate_automations, record { replies = replies; log = [] })

fresh-IsHonest : (r a : Bool) (replies : List Bool) → IsHonest (fresh r a replies)
unfolding replay
fresh-IsHonest r a replies = record { recorder_side = refl; automation_side = refl }

-- The gate undoes its own actions and nothing else: whatever roles its passes find and whichever
-- calls fail, and also after the restore at unload, no successful call of its log switches on what
-- this gate had not switched off before, or off what it had, and its two attributes say exactly
-- what it has left off.
pub passes-IsHonest :
    (gate_recorder gate_automations : Bool) (replies roles : List Bool)
    → IsHonest (passes roles (fresh gate_recorder gate_automations replies))
      × IsHonest (async_restore (passes roles (fresh gate_recorder gate_automations replies)))
unfolding async_restore
passes-IsHonest r a replies roles =
    let before = passes-keeps roles (fresh r a replies) (fresh-IsHonest r a replies) in
    let s = passes roles (fresh r a replies) in
    (before, on_automations-IsHonest true (on_recorder true s) (on_recorder-IsHonest true s before))

reconcile-on :
    (domain : Domain) (target_all : Bool) (state : Option Bool) (h : House)
    → h.replies ≡ []
    → (is_false (reconcile domain target_all true state h).0 ≡ false)
      × ((reconcile domain target_all true state h).1.replies ≡ [])
unfolding reconcile call
reconcile-on domain target_all state h e = ground arith

-- Unloading leaves nothing off: after any passes of a new gate, if all the calls of the restore
-- succeed, neither domain is off by a call of this gate.
pub async_restore-undoes :
    (gate_recorder gate_automations : Bool) (replies roles : List Bool)
    → (passes roles (fresh gate_recorder gate_automations replies)).1.replies ≡ []
    → (replay recorder
          (async_restore (passes roles (fresh gate_recorder gate_automations replies))).1.log
        ≡ some false)
      × (replay automation
            (async_restore (passes roles (fresh gate_recorder gate_automations replies))).1.log
          ≡ some false)
unfolding async_restore
async_restore-undoes r a replies roles e =
    let s = passes roles (fresh r a replies) in
    let honest = (passes-IsHonest r a replies roles).1 in
    let first = reconcile-on recorder false s.0.recorder_state s.1 e in
    let second = reconcile-on automation true s.0.automation_state (on_recorder true s).1 first.1 in
    (honest.recorder_side ∙ ap some first.0, honest.automation_side ∙ ap some second.0)

-- Once every call succeeds a pass is idempotent: a further pass in the same role makes no call and
-- changes nothing.
pub async_apply-idempotent :
    (is_leader : Bool) (s : Gate × House)
    → s.1.replies ≡ []
    → async_apply is_leader (async_apply is_leader s) ≡ async_apply is_leader s
unfolding async_apply reconcile call
async_apply-idempotent is_leader s e = ground arith
