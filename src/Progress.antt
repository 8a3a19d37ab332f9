-- ===== src/Progress.antt =====
-- How ready a project is, by the items of its evaluation checklist: `computeProjectProgress`
-- (backend/src/projects/projects.service.ts) and `computeEvaluationChecklistProgress`
-- (frontend/src/lib/evaluationChecklistProgress.ts). A section's percentage is a rounded quotient of
-- floating-point numbers: it is a parameter, `percent checked total`. The points of the other sections
-- are quarters of a whole percentage; added to 100 they are exact.
pub mod Agreement
pub mod Examples
use Prim.Native.Nat.{◌/◌}
use transcendence.Prelude.{
  ℕ, zero, suc, ◌+◌, ◌-◌, ◌*◌, ◌≤◌, ◌<◌, min, max, String, ◌≡◌, refl, sym, ap, subst, ◌∙◌, ◌≡⟨◌⟩◌,
  ◌∎, ◌≢◌, ◌↔◌, ◌⊎◌, inl, inr, Bool, true, false, not, ◌&&◌, ◌||◌, Option, none, some, List, [],
  ◌∷◌, ◌++◌, map, arith, ltb, leb, ◌==◌, if◌then◌else◌, ltb→lt, lt→ltb, leb→le, ==_iff, ==_refl,
  Bool-cases, Option-cases, length, filter, any, find, All, length-append, All-append, All-mono,
  any-append, filter-others, Result, ok, err, ◌>>=◌, ◌>>◌, throw_if, Result-cases, ℤ, pos, negsuc,
}

pub data EvaluationChecklistItemSection : Type 0 where
  mandatory bonus supplemental : EvaluationChecklistItemSection

pub record EvaluationChecklistItem : Type 0 where
  pub section : EvaluationChecklistItemSection
  pub is_checked : Bool

pub record EvaluationChecklistProgress : Type 0 where
  pub current_value : ℕ
  pub complete_at : ℕ
  pub percent : ℕ

abbrev pub in_section : EvaluationChecklistItemSection → EvaluationChecklistItem → Bool
in_section mandatory item = elim item.section [
  | mandatory ↦ true
  | bonus ↦ false
  | supplemental ↦ false
]
in_section bonus item = elim item.section [
  | mandatory ↦ false
  | bonus ↦ true
  | supplemental ↦ false
]
in_section supplemental item = elim item.section [
  | mandatory ↦ false
  | bonus ↦ false
  | supplemental ↦ true
]

abbrev pub checked : List EvaluationChecklistItem → ℕ
checked items = length (filter (λ i. i.is_checked) items)

-- `items.every((item) => item.isChecked)`.
abbrev pub every_checked : List EvaluationChecklistItem → Bool
every_checked [] = true
every_checked (i ∷ is) = i.is_checked && every_checked is

-- `Math.round` of a number of quarters.
abbrev pub round_quarters : ℕ → ℕ
round_quarters q = (q + 2) / 4

module _ (percent : (checked total : ℕ) → ℕ) where
  -- `sectionPercent`, of a section's items.
  abbrev pub section_percent : List EvaluationChecklistItem → ℕ
  section_percent items = if length items == 0 then 0 else percent (checked items) (length items)

  unfoldable pub compute_project_progress : List EvaluationChecklistItem → ℕ
  compute_project_progress items =
      let mandatory_percent = section_percent (filter (in_section mandatory) items) in
      let bonus_percent = section_percent (filter (in_section bonus) items) in
      let supplemental_percent = section_percent (filter (in_section supplemental) items) in
      let overall_quarters =
        4 * mandatory_percent
        + (if leb 100 mandatory_percent
            then bonus_percent + (if leb 100 bonus_percent then supplemental_percent else 0)
            else 0) in
      min (round_quarters overall_quarters) 100

  unfoldable pub compute_evaluation_checklist_progress :
      List EvaluationChecklistItem → EvaluationChecklistProgress
  compute_evaluation_checklist_progress items =
      let mandatory_items = filter (in_section mandatory) items in
      let bonus_items = filter (in_section bonus) items in
      let supplemental_items = filter (in_section supplemental) items in
      let mandatory_complete = ltb 0 (length mandatory_items) && every_checked mandatory_items in
      let bonus_complete = ltb 0 (length bonus_items) && every_checked bonus_items in
      let with_bonus = λ (n : ℕ). if mandatory_complete then n else 0 in
      let with_supplemental = λ (n : ℕ). if mandatory_complete && bonus_complete then n else 0 in
      record {
        current_value =
            checked mandatory_items
            + with_bonus (checked bonus_items)
            + with_supplemental (checked supplemental_items);
        complete_at =
            length mandatory_items
            + with_bonus (length bonus_items)
            + with_supplemental (length supplemental_items);
        percent = round_quarters (
            4 * section_percent mandatory_items
            + with_bonus (section_percent bonus_items)
            + with_supplemental (section_percent supplemental_items));
      }

-- `getEvaluationChecklistReadinessTier`.
unfoldable pub readiness_tier : ℕ → EvaluationChecklistItemSection
readiness_tier percent =
    if ltb 125 percent then supplemental else if ltb 100 percent then bonus else mandatory
