-- ===== src/Progress/Examples.antt =====
-- A checklist with its mandatory items checked and one of two bonus items.
use transcendence.Prelude.{
  ℕ, ◌+◌, ◌*◌, min, ◌≡◌, refl, Bool, true, false, List, [], ◌∷◌, ◌==◌, if◌then◌else◌, ==_refl,
}
use Prim.Native.Nat.{◌/◌}
use transcendence.Progress.{
  EvaluationChecklistItemSection, mandatory, bonus, supplemental, EvaluationChecklistItem,
  compute_project_progress, compute_evaluation_checklist_progress, readiness_tier,
}
use transcendence.Progress.Agreement.{scores_agree}

-- A rounded percentage, by exact arithmetic.
abbrev rounded : ℕ → ℕ → ℕ
rounded c n = if c == n then 100 else (200 * c + n) / (2 * n)

abbrev item : EvaluationChecklistItemSection → Bool → EvaluationChecklistItem
item section is_checked = record { section = section; is_checked = is_checked }

abbrev checklist : List EvaluationChecklistItem
checklist =
    item mandatory true
    ∷ item bonus false
    ∷ item mandatory true
    ∷ item bonus true
    ∷ item supplemental true
    ∷ []

client_test :
    compute_evaluation_checklist_progress rounded checklist
    ≡ record { current_value = 3; complete_at = 4; percent = 113 }
unfolding compute_evaluation_checklist_progress
client_test = refl

server_test : compute_project_progress rounded (item mandatory false ∷ checklist) ≡ 67
unfolding compute_project_progress
server_test = refl

tier_test : readiness_tier 113 ≡ bonus
unfolding readiness_tier
tier_test = refl

scores_agree_example :
    compute_project_progress rounded checklist
    ≡ min (compute_evaluation_checklist_progress rounded checklist).percent 100
scores_agree_example = scores_agree rounded checklist (λ n h. rw (==_refl n) refl)
