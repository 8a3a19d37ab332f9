-- ===== src/Progress/Agreement.antt =====
-- The server's score and the client's.
use transcendence.Prelude.{
  ℕ, ◌+◌, ◌*◌, ◌≤◌, ◌<◌, min, ◌≡◌, refl, sym, ◌∙◌, inl, inr, Bool, true, false, ◌&&◌, List, [], ◌∷◌,
  arith, ltb, leb, ◌==◌, if◌then◌else◌, Bool-cases, length, filter,
}
use transcendence.Progress.{
  mandatory, bonus, supplemental, EvaluationChecklistItem, in_section, checked, every_checked,
  round_quarters, section_percent, compute_project_progress, compute_evaluation_checklist_progress,
}

all_checked : (is : List EvaluationChecklistItem) → every_checked is ≡ true → checked is ≡ length is
all_checked [] e = refl
all_checked (i ∷ is) e = ground (arith, all_checked is)

round_whole : (n : ℕ) → round_quarters (4 * n) ≡ n
round_whole n = omega arith

capped : (n q : ℕ) → 100 ≤ n → min (round_quarters (4 * n + q)) 100 ≡ 100
capped n q h =
    let enough : 100 ≤ round_quarters (4 * n + q) = omega (arith, h) in omega (arith, enough)

-- Whether a section is done, as the client tells.
abbrev complete : List EvaluationChecklistItem → Bool
complete items = ltb 0 (length items) && every_checked items

module _ (percent : (checked total : ℕ) → ℕ) where
  complete_percent :
      (is : List EvaluationChecklistItem)
      → ((n : ℕ) → 0 < n → percent n n ≡ 100)
      → complete is ≡ true
      → section_percent percent is ≡ 100
  complete_percent is full e =
      let some_items : 0 < length is = ground (arith, e) in
      let done = all_checked is (ground (arith, e)) in
      let not_empty : (length is == 0) ≡ false = ground (arith, some_items) in
      rw (not_empty, done) (full (length is) some_items)

  -- If a section whose items are all checked counts 100 percent, the server's score of any
  -- checklist is the client's, capped at 100: although the server opens the bonus by the rounded
  -- percentage and the client by the exact count.
  pub scores_agree :
      (items : List EvaluationChecklistItem)
      → ((n : ℕ) → 0 < n → percent n n ≡ 100)
      → compute_project_progress percent items
        ≡ min (compute_evaluation_checklist_progress percent items).percent 100
  unfolding compute_project_progress compute_evaluation_checklist_progress
  scores_agree items full =
      let ms = filter (in_section mandatory) items in
      let n = section_percent percent ms in
      let b = section_percent percent (filter (in_section bonus) items) in
      let s = section_percent percent (filter (in_section supplemental) items) in
      let b_done = complete (filter (in_section bonus) items) in
      elim (Bool-cases (leb 100 n)) [
        | inl high ↦
            let over : 100 ≤ n = ground (arith, high) in
            capped n _ over
            ∙ sym (
                omega (
                  arith,
                  capped n
                      ((if complete ms then b else 0) + (if complete ms && b_done then s else 0))
                      over,
                ))
        | inr low ↦ elim (Bool-cases (complete ms)) [
          | inl done ↦
              let no : n ≡ 100 = complete_percent ms full done in
              let bad : true ≡ false = ground (arith, low, no) in cc
          | inr open_ ↦
              let left : compute_project_progress percent items
                  ≡ min (round_quarters (4 * n + 0)) 100 =
                rw (compute_project_progress, low) refl in
              left ∙ rw open_ (omega arith)
        ]
      ]
