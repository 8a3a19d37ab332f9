-- ===== src/TasksReducer/Reindex.antt =====
-- `reindexStatus`: it closes the gap of a column, and leaves a dense column as it is.
use transcendence.Prelude.{
  ℕ, ◌+◌, ◌-◌, ◌≡◌, refl, ap, ◌∙◌, inl, inr, true, false, Option, none, some, List, [], ◌∷◌, map,
  arith, ltb, ◌==◌, if◌then◌else◌, ==_refl, Bool-cases, All, All-mono,
}
use transcendence.JsMap.{get}
use transcendence.Tasks.{TaskStatus, Task, in_column}
use transcendence.Tasks.Places.{IsDense}
use transcendence.Tasks.Counts.{kept_in, cards, shift_down}
use transcendence.Tasks.Board.{all, HasGap}
use transcendence.TasksReducer.{
  set_each, take_rank, select_column_tasks, reindex_status, sort_by_rank,
}
use transcendence.TasksReducer.Columns.{index_of, Distinct, Occurs, get-set_each}
use transcendence.TasksReducer.Below.{
  column, column-Distinct, index_of_other, dense_index, gapped_index,
}
use transcendence.TasksReducer.Moved.{AllIn, filter-cong, task-eq}
use transcendence.TasksReducer.Agrees.{All-of-Occurs}

module _ {Fields : Type 0} where
  select_is :
      (p : ℕ) (v : TaskStatus) (ts : List (Task Fields))
      → AllIn p ts
      → select_column_tasks ts v ≡ column (kept_in p v all) ts
  unfolding select_column_tasks
  select_is p v ts h =
      ap sort_by_rank (filter-cong _ _ ts (All-mono (λ t e. rw (e, ==_refl p) (ground arith)) ts h))

  take_rank_is : (k : ℕ) (t : Task Fields) → take_rank (some k) t ≡ record t { rank = k }
  take_rank_is k t = elim (Bool-cases (t.rank == k)) [
    | inl e ↦ rw e (task-eq t (record t { rank = k }) refl refl refl (ground (arith, e)) refl)
    | inr e ↦ rw e
  ]

  new_rank :
      (p : ℕ) (v : TaskStatus) (id : ℕ) (ts : List (Task Fields)) (o : Option ℕ)
      → AllIn p ts
      → Distinct ts
      → index_of id (column (kept_in p v all) ts) ≡ o
      → get id (set_each (λ i. i) 0 (select_column_tasks ts v) []) ≡ o
  unfolding get
  new_rank p v id ts o h d e = rw (select_is p v ts h) (
      rw e at (
        get-set_each (λ i. i) 0 id (column (kept_in p v all) ts) []
          (column-Distinct (kept_in p v all) ts d))
      ∙ counted o)
    where
      counted : (o : Option ℕ) → (elim o [ none ↦ none | some i ↦ some (0 + i) ]) ≡ o
      counted none = refl
      counted (some i) = ap some (omega arith)

  pub map-All :
      (f g : Task Fields → Task Fields) (ts : List (Task Fields))
      → All (λ t. f t ≡ g t) ts
      → map f ts ≡ map g ts
  map-All f g [] a = refl
  map-All f g (t ∷ ts) a = rw (a.0, map-All f g ts a.1)

  reranked_gap :
      (p : ℕ) (v : TaskStatus) (r : ℕ) (ts : List (Task Fields))
      → AllIn p ts
      → Distinct ts
      → HasGap p v r all ts
      → (t : Task Fields) → Occurs t ts
      → take_rank (get t.id (set_each (λ i. i) 0 (select_column_tasks ts v) [])) t
        ≡ shift_down p v r t
  reranked_gap p v r ts h d g t o = elim (Bool-cases (kept_in p v all t)) [
    | inl e ↦
        ap (λ k. take_rank k t)
          (new_rank p v t.id ts _ h d (gapped_index p v all _ r t ts d g.here o e))
        ∙ take_rank_is _ t
        ∙ lowered p v r t (ground (arith, e))
    | inr e ↦
        ap (λ k. take_rank k t)
          (new_rank p v t.id ts _ h d (index_of_other t (kept_in p v all) ts d o e))
        ∙ untouched p v r t (ground (arith, e))
  ]
    where
      lowered :
          (p : ℕ) (v : TaskStatus) (r : ℕ) (t : Task Fields)
          → in_column p v t ≡ true
          → record t { rank = if ltb r t.rank then t.rank - 1 else t.rank } ≡ shift_down p v r t
      lowered p v r t e = elim (Bool-cases (ltb r t.rank)) [ inl l ↦ rw (e, l) | inr l ↦ rw (e, l) ]

      untouched :
          (p : ℕ) (v : TaskStatus) (r : ℕ) (t : Task Fields)
          → in_column p v t ≡ false
          → t ≡ shift_down p v r t
      untouched p v r t e = rw e

  -- The column closes its gap as on the server.
  pub reindex_gap :
      (p : ℕ) (v : TaskStatus) (r : ℕ) (ts : List (Task Fields))
      → AllIn p ts
      → Distinct ts
      → HasGap p v r all ts
      → reindex_status ts v ≡ map (shift_down p v r) ts
  unfolding reindex_status
  reindex_gap p v r ts h d g = map-All _ _ ts (All-of-Occurs ts (reranked_gap p v r ts h d g))

  reranked_dense :
      (p : ℕ) (v : TaskStatus) (n : ℕ) (ts : List (Task Fields))
      → AllIn p ts
      → Distinct ts
      → IsDense n (cards p v all ts)
      → (t : Task Fields) → Occurs t ts
      → take_rank (get t.id (set_each (λ i. i) 0 (select_column_tasks ts v) [])) t ≡ t
  reranked_dense p v n ts h d dense t o = elim (Bool-cases (kept_in p v all t)) [
    | inl e ↦
        ap (λ k. take_rank k t)
          (new_rank p v t.id ts _ h d (dense_index p v all n t ts d dense o e))
        ∙ take_rank_is t.rank t
    | inr e ↦
        ap (λ k. take_rank k t)
          (new_rank p v t.id ts _ h d (index_of_other t (kept_in p v all) ts d o e))
  ]

  pub map-id : (ts : List (Task Fields)) → map (λ t. t) ts ≡ ts
  map-id [] = refl
  map-id (t ∷ ts) = rw (map-id ts)

  pub reindex_dense :
      (p : ℕ) (v : TaskStatus) (n : ℕ) (ts : List (Task Fields))
      → AllIn p ts
      → Distinct ts
      → IsDense n (cards p v all ts)
      → reindex_status ts v ≡ ts
  unfolding reindex_status
  reindex_dense p v n ts h d dense =
      map-All _ (λ t. t) ts (All-of-Occurs ts (reranked_dense p v n ts h d dense)) ∙ map-id ts
