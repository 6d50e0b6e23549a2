-- ===== src/Gating/Tests.antt =====
-- A gate on both layers: its first call fails, it becomes a follower, a leader, a follower again.
use ha_cluster_state_sync.Prelude.{◌≡◌, refl, true, false, some, [], ◌∷◌, List, Bool}
use ha_cluster_state_sync.Gating.{
  Gate, House, recorder, automation, call, reconcile, async_apply, async_restore, passes,
}
use ha_cluster_state_sync.Gating.Undo.{
  replay, fresh, IsHonest, passes-IsHonest, async_restore-undoes,
}

abbrev roles : List Bool
roles = false ∷ false ∷ true ∷ false ∷ []

abbrev replies : List Bool
replies = false ∷ []

state : Gate × House
unfolding passes async_apply reconcile call
state = passes roles (fresh true true replies)

state-off : (state.0.recorder_state ≡ some false) × (state.0.automation_state ≡ some false)
unfolding state
state-off = (refl, refl)

all_answered : (passes roles (fresh true true replies)).1.replies ≡ []
unfolding passes async_apply reconcile call
all_answered = refl

passes-IsHonest_example :
    IsHonest (passes roles (fresh true true replies))
    × IsHonest (async_restore (passes roles (fresh true true replies)))
passes-IsHonest_example = passes-IsHonest true true replies roles

async_restore-undoes_example :
    (replay recorder (async_restore (passes roles (fresh true true replies))).1.log ≡ some false)
    × (replay automation (async_restore (passes roles (fresh true true replies))).1.log
        ≡ some false)
async_restore-undoes_example = async_restore-undoes true true replies roles all_answered
