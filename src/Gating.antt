-- ===== src/Gating.antt =====
-- custom_components/cluster_state_sync/gating.py: `ServiceGate`, which switches the recorder and
-- the automations of a follower off, and on again what it has switched off itself.
pub mod Undo
mod Tests
use ha_cluster_state_sync.Prelude.{
  Bool, true, false, not, ◌&&◌, ◌||◌, Option, none, some, List, [], ◌∷◌, if◌then◌else◌,
}

pub data Domain : Type 0 where
  recorder automation : Domain

-- A service call: `on` is `enable` or `turn_on`, otherwise `disable` or `turn_off`.
pub record Call : Type 0 where
  pub domain : Domain
  pub on : Bool
  pub target_all : Bool
  pub succeeded : Bool

-- The outside: whether each next call succeeds (past the list all do), and the calls made, the
-- latest first.
pub record House : Type 0 where
  pub replies : List Bool
  pub log : List Call

-- `none` means that this gate has switched nothing off, `some false` that it has.
pub record Gate : Type 0 where
  pub gate_recorder : Bool
  pub gate_automations : Bool
  pub recorder_state : Option Bool
  pub automation_state : Option Bool

abbrev pub new_gate : Bool → Bool → Gate
new_gate gate_recorder gate_automations = record {
  gate_recorder = gate_recorder;
  gate_automations = gate_automations;
  recorder_state = none;
  automation_state = none;
}

pub enabled : Gate → Bool
enabled g = g.gate_recorder || g.gate_automations

-- `x is False`
abbrev pub is_false : Option Bool → Bool
is_false none = false
is_false (some b) = not b

abbrev logged : Domain → Bool → Bool → Bool → House → Bool × House
logged domain on target_all ok h = (
  ok,
  record h {
    log = record { domain = domain; on = on; target_all = target_all; succeeded = ok } ∷ h.log;
  },
)

abbrev answered : Domain → Bool → Bool → List Bool → House → Bool × House
answered domain on target_all [] h = logged domain on target_all true h
answered domain on target_all (ok ∷ rest) h =
    logged domain on target_all ok (record h { replies = rest })

-- `_call`: whether the call succeeded; a failure is swallowed.
unfoldable pub call : Domain → Bool → Bool → House → Bool × House
call domain on target_all h = answered domain on target_all h.replies h

abbrev kept : Option Bool → Option Bool → Bool × House → Option Bool × House
kept old new (ok, h) = (if ok then new else old, h)

-- `_reconcile`, on the attribute's value.
unfoldable pub reconcile : Domain → Bool → Bool → Option Bool → House → Option Bool × House
reconcile domain target_all is_leader state h =
    if not is_leader && not (is_false state)
    then kept state (some false) (call domain false target_all h)
    else if is_leader && is_false state
    then kept state none (call domain true target_all h)
    else (state, h)

abbrev pub on_recorder : Bool → Gate × House → Gate × House
on_recorder is_leader (g, h) =
    let (state, h') = reconcile recorder false is_leader g.recorder_state h in
    (record g { recorder_state = state }, h')

abbrev pub on_automations : Bool → Gate × House → Gate × House
on_automations is_leader (g, h) =
    let (state, h') = reconcile automation true is_leader g.automation_state h in
    (record g { automation_state = state }, h')

unfoldable pub async_apply : Bool → Gate × House → Gate × House
async_apply is_leader (g, h) =
    let first = if g.gate_recorder then on_recorder is_leader (g, h) else (g, h) in
    if g.gate_automations then on_automations is_leader first else first

unfoldable pub async_restore : Gate × House → Gate × House
async_restore s = on_automations true (on_recorder true s)

-- The passes of the flush loop, each with the role that it found.
unfoldable pub passes : List Bool → Gate × House → Gate × House
passes [] s = s
passes (is_leader ∷ roles) s = passes roles (async_apply is_leader s)
