-- ===== src/TasksReducer/Moved.antt =====
-- A client that applies a move does to its tasks what the server did to its rows.
use transcendence.Prelude.{
  ℕ, ◌+◌, ◌≤◌, ◌≡◌, refl, ap, subst, ◌∙◌, inl, inr, Bool, true, false, not, ◌&&◌, Option, none,
  some, List, [], ◌∷◌, arith, ◌==◌, if◌then◌else◌, ==_refl, Bool-cases, length, filter, find, All,
  All-mono,
}
use transcendence.JsMap.{get}
use transcendence.Tasks.{TaskStatus, Task, has_id, in_column, is_other}
use transcendence.Tasks.Counts.{count, kept_in}
use transcendence.Tasks.Board.{IsBoard, HasGap, take-HasGap, status_index-inj}
use transcendence.Tasks.Order.{after_down}
use transcendence.TasksReducer.{
  same_status, set_each, splice, take_position, column_without, sort_by_rank,
}
use transcendence.TasksReducer.Columns.{
  index_of, Distinct, Occurs, get-set_each, count-splice, index_of_spliced,
}
use transcendence.TasksReducer.Below.{
  column, count-column, column-Distinct, index_of_other, dense_index, gapped_index,
}

found :
    (i j : Option ℕ) (v w : TaskStatus) (a b : Option (TaskStatus × ℕ))
    → a ≡ (elim i [ none ↦ b | some k ↦ some (v, 0 + k) ])
    → b ≡ (elim j [ none ↦ none | some k ↦ some (w, 0 + k) ])
    → a ≡ (elim i [ some k ↦ some (v, k) | none ↦ elim j [ some k ↦ some (w, k) | none ↦ none ] ])
found (some k) j v w a b h g = h ∙ ap (λ m. some (v, m)) (omega arith)
found none (some k) v w a b h g = h ∙ g ∙ ap (λ m. some (w, m)) (omega arith)
found none none v w a b h g = h ∙ g

module _ {Fields : Type 0} where
  abbrev pub AllIn : ℕ → List (Task Fields) → Type 0
  AllIn p = All (λ t. t.project_id ≡ p)

  pub filter-cong :
      (q q' : Task Fields → Bool) (ts : List (Task Fields))
      → All (λ t. q t ≡ q' t) ts
      → filter q ts ≡ filter q' ts
  filter-cong q q' [] h = refl
  filter-cong q q' (t ∷ ts) h = rw (h.0, filter-cong q q' ts h.1)

  -- In one project, a column is told by its status.
  pub column_without_is :
      (p : ℕ) (x : Task Fields) (v : TaskStatus) (ts : List (Task Fields))
      → AllIn p ts
      → column_without x v ts ≡ column (kept_in p v (is_other (some x.id))) ts
  column_without_is p x v ts h =
      ap sort_by_rank (filter-cong _ _ ts (All-mono (λ t e. rw (e, ==_refl p)) ts h))

  pub task-eq :
      (t u : Task Fields)
      → t.id ≡ u.id
      → t.project_id ≡ u.project_id
      → t.status ≡ u.status
      → t.rank ≡ u.rank
      → t.fields ≡ u.fields
      → t ≡ u
  task-eq t u a b c d e = cc

  pub take_position_is :
      (v : TaskStatus) (k : ℕ) (t : Task Fields)
      → take_position (some (v, k)) t ≡ record t { status = v; rank = k }
  take_position_is v k t = elim (Bool-cases (same_status t.status v && t.rank == k)) [
    | inl e ↦
        let s : t.status ≡ v = status_index-inj t.status v (ground arith) in
        let r : t.rank ≡ k = ground arith in
        rw e (task-eq t (record t { status = v; rank = k }) refl refl s r refl)
    | inr e ↦ rw e
  ]

  -- Where another task than the moved one stands in a column without that one.
  pub index_without :
      (p : ℕ) (x t : Task Fields) (v : TaskStatus) (ts : List (Task Fields))
      → IsBoard ts
      → find (has_id x.id) ts ≡ some x
      → x.project_id ≡ p
      → t.project_id ≡ p
      → Occurs t ts
      → (t.id == x.id) ≡ false
      → index_of t.id (column (kept_in p v (is_other (some x.id))) ts) ≡ (
          if same_status t.status v
          then some (after_down (in_column p x.status t) x.rank t.rank)
          else none)
  index_without p x t v ts b e ep tp o apart =
      let g : HasGap p x.status x.rank (is_other (some x.id)) ts =
        subst (λ q. HasGap q x.status x.rank (is_other (some x.id)) ts) ep
          (take-HasGap x.id ts x b e) in
      elim (Bool-cases (same_status t.status v)) [
        | inr away ↦ rw away (
            index_of_other t (kept_in p v (is_other (some x.id))) ts b.ids o (ground (arith, away)))
        | inl here ↦
            let kept : kept_in p v (is_other (some x.id)) t ≡ true = ground (arith, here, apart) in
            elim (Bool-cases (same_status v x.status)) [
              | inl same ↦
                  let ev = status_index-inj v x.status (ground arith) in
                  let inside : in_column p x.status t ≡ true = ground (arith, here, same) in
                  rw (here, inside, ev)
                    (gapped_index p x.status (is_other (some x.id)) _ x.rank t ts b.ids g.here o
                      (rw (← ev) kept))
              | inr other ↦
                  let outside : in_column p x.status t ≡ false = ground (arith, here, other) in
                  rw (here, outside)
                    (dense_index p v (is_other (some x.id)) _ t ts b.ids
                      (g.elsewhere p v (ground (arith, other))) o kept)
            ]
      ]

  column_without-Distinct :
      (x : Task Fields) (v : TaskStatus) (ts : List (Task Fields))
      → Distinct ts
      → Distinct (column_without x v ts)
  column_without-Distinct x v ts d =
      column-Distinct (λ t. same_status t.status v && not (t.id == x.id)) ts d

  nobody :
      (x : Task Fields) (v : TaskStatus) (ts : List (Task Fields))
      → count (λ t. (same_status t.status v && not (t.id == x.id)) && has_id x.id t) ts ≡ 0
  nobody x v [] = refl
  nobody x v (t ∷ ts) = ground (arith, nobody x v ts)

  absent_without :
      (x : Task Fields) (v : TaskStatus) (ts : List (Task Fields))
      → count (has_id x.id) (column_without x v ts) ≡ 0
  absent_without x v ts =
      count-column (has_id x.id) (λ t. same_status t.status v && not (t.id == x.id)) ts
      ∙ nobody x v ts

  abbrev pub source : Task Fields → TaskStatus → List (Task Fields) → List (Task Fields)
  source x w ts = if same_status x.status w then [] else column_without x x.status ts

  abbrev pub positions :
      Task Fields → TaskStatus → ℕ → List (Task Fields) → List (ℕ × (TaskStatus × ℕ))
  positions x w r ts =
      set_each (λ i. (x.status, i)) 0 (source x w ts)
        (set_each (λ i. (w, i)) 0 (splice r x (column_without x w ts)) [])

  source-Distinct :
      (x : Task Fields) (w : TaskStatus) (ts : List (Task Fields))
      → Distinct ts
      → Distinct (source x w ts)
  source-Distinct x w ts d i = elim (Bool-cases (same_status x.status w)) [
    | inl e ↦ rw e (omega arith)
    | inr e ↦ rw e (column_without-Distinct x x.status ts d i)
  ]

  splice-Distinct :
      (x : Task Fields) (w : TaskStatus) (r : ℕ) (ts : List (Task Fields))
      → Distinct ts
      → Distinct (splice r x (column_without x w ts))
  splice-Distinct x w r ts d i =
      let counted = count-splice (has_id i) r x (column_without x w ts) in
      let others = column_without-Distinct x w ts d i in
      elim (Bool-cases (x.id == i)) [
        | inl e ↦ ground (arith, counted, e, absent_without x w ts)
        | inr e ↦ ground (arith, counted, e, others)
      ]

  -- What the map of new positions has for an id.
  pub position :
      (x : Task Fields) (w : TaskStatus) (r id : ℕ) (ts : List (Task Fields)) (i j : Option ℕ)
      → Distinct ts
      → index_of id (source x w ts) ≡ i
      → index_of id (splice r x (column_without x w ts)) ≡ j
      → get id (positions x w r ts) ≡ (elim i [
        | some k ↦ some (x.status, k)
        | none ↦ elim j [ some k ↦ some (w, k) | none ↦ none ]
      ])
  unfolding get
  position x w r id ts i j d ei ej =
      let dest = splice r x (column_without x w ts) in
      let to_source : ℕ → TaskStatus × ℕ = λ k. (x.status, k) in
      let to_dest : ℕ → TaskStatus × ℕ = λ k. (w, k) in
      let later = set_each to_dest 0 dest [] in
      let outer = get-set_each to_source 0 id (source x w ts) later (source-Distinct x w ts d) in
      let inner = get-set_each to_dest 0 id dest [] (splice-Distinct x w r ts d) in
      found i j x.status w _ (get id later) (rw ei at outer) (rw ej at inner)

  pub position_of_moved :
      (x : Task Fields) (w : TaskStatus) (r : ℕ) (ts : List (Task Fields))
      → Distinct ts
      → Occurs x ts
      → r ≤ length (column_without x w ts)
      → get x.id (positions x w r ts) ≡ some (w, r)
  position_of_moved x w r ts d o h =
      position x w r x.id ts none (some r) d
        (elim (Bool-cases (same_status x.status w)) [
          | inl e ↦ rw e
          | inr e ↦ rw e (
              index_of_other x (λ t. same_status t.status x.status && not (t.id == x.id)) ts d o
                (ground arith))
        ])
        (index_of_spliced r x (column_without x w ts) h (absent_without x w ts))
