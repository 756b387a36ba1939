-- ===== src/Daemon/Planned/Kept.antt =====
-- No repository that a project lists is taken for cloned without being in the workspace.
use workingman.Prelude.{◌≡◌, true, false, List, [], ◌∷◌, is_empty}
use workingman.Project.{Project}
use workingman.Daemon.Planned.{Store, Answers, planning_cycle}

-- Planning launches, one after another: what succeeds in each, and the project as it is then.
pub planned : List (Answers × Project) → Store → Store
planned [] st = st
planned ((env, p) ∷ cycles) st = planned cycles (planning_cycle env p st)

-- A launch with a workspace manager and a branch, whose Create makes the workspace if it is not there.
abbrev pub Provisions : Answers → Project → Type 0
Provisions env p = (env.has_manager ≡ true) × (is_empty p.branch ≡ false) × (env.creates ≡ true)

abbrev pub AllProvision : List (Answers × Project) → Type 0
AllProvision [] = Unit {0}
AllProvision ((env, p) ∷ cycles) = Provisions env p × AllProvision cycles
