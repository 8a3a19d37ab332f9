-- ===== src/TasksReducer/Below.antt =====
-- In a dense column the index of a task is its rank, and in one with a gap it is closed.
use transcendence.Prelude.{
  ℕ, zero, suc, ◌+◌, ◌-◌, ◌≤◌, ◌≡◌, refl, ap, ◌∙◌, inl, inr, Bool, true, false, ◌&&◌, none, some,
  List, [], ◌∷◌, arith, ltb, leb, ◌==◌, if◌then◌else◌, ==_refl, Bool-cases, length, filter,
}
use transcendence.Tasks.{TaskStatus, Task, has_id}
use transcendence.Tasks.Places.{IsDense, IsGapped}
use transcendence.Tasks.Counts.{count, kept_in, cards}
use transcendence.TasksReducer.{insert_by_rank, sort_by_rank}
use transcendence.TasksReducer.Columns.{
  index_of, Distinct, Occurs, count-sort, sort-IsSorted, index_of_sorted, index_of_absent,
  count_of_Occurs,
}

module _ {Fields : Type 0} where
  count-filter :
      (p q : Task Fields → Bool) (ts : List (Task Fields))
      → count p (filter q ts) ≡ count (λ t. q t && p t) ts
  count-filter p q [] = refl
  count-filter p q (t ∷ ts) = ground (arith, count-filter p q ts)

  count-le :
      (p q : Task Fields → Bool) (ts : List (Task Fields)) → count (λ t. q t && p t) ts ≤ count p ts
  count-le p q [] = omega arith
  count-le p q (t ∷ ts) = ground (arith, count-le p q ts)

  abbrev pub column : (Task Fields → Bool) → List (Task Fields) → List (Task Fields)
  column q ts = sort_by_rank (filter q ts)

  pub count-column :
      (p q : Task Fields → Bool) (ts : List (Task Fields))
      → count p (column q ts) ≡ count (λ t. q t && p t) ts
  count-column p q ts = count-sort p (filter q ts) ∙ count-filter p q ts

  pub column-Distinct :
      (q : Task Fields → Bool) (ts : List (Task Fields)) → Distinct ts → Distinct (column q ts)
  column-Distinct q ts d i =
      omega (arith, count-column (has_id i) q ts, count-le (has_id i) q ts, d i)

  length-insert :
      (t : Task Fields) (ts : List (Task Fields)) → length (insert_by_rank t ts) ≡ length ts + 1
  length-insert t [] = omega arith
  length-insert t (u ∷ us) = ground (arith, length-insert t us)

  pub length-column :
      (q : Task Fields → Bool) (ts : List (Task Fields)) → length (column q ts) ≡ count q ts
  length-column q [] = refl
  length-column q (t ∷ ts) = elim (Bool-cases (q t)) [
    | inl e ↦ rw e (omega (arith, length-insert t (column q ts), length-column q ts))
    | inr e ↦ rw e (omega (arith, length-column q ts))
  ]

  Occurs-insert :
      (t u : Task Fields) (ts : List (Task Fields)) → Occurs t ts → Occurs t (insert_by_rank u ts)
  Occurs-insert t u [] o = inr o
  Occurs-insert t u (v ∷ vs) o = elim (Bool-cases (leb u.rank v.rank)) [
    | inl e ↦ rw e (inr o)
    | inr e ↦ rw e (elim o [ inl h ↦ inl h | inr h ↦ inr (Occurs-insert t u vs h) ])
  ]

  insert-Occurs : (t : Task Fields) (ts : List (Task Fields)) → Occurs t (insert_by_rank t ts)
  insert-Occurs t [] = inl refl
  insert-Occurs t (v ∷ vs) = elim (Bool-cases (leb t.rank v.rank)) [
    | inl e ↦ rw e (inl refl)
    | inr e ↦ rw e (inr (insert-Occurs t vs))
  ]

  Occurs-column :
      (t : Task Fields) (q : Task Fields → Bool) (ts : List (Task Fields))
      → q t ≡ true
      → Occurs t ts
      → Occurs t (column q ts)
  Occurs-column t q [] e o = o
  Occurs-column t q (u ∷ us) e (inl h) = rw (h, e) (insert-Occurs t (column q us))
  Occurs-column t q (u ∷ us) e (inr h) = elim (Bool-cases (q u)) [
    | inl k ↦ rw k (Occurs-insert t u (column q us) (Occurs-column t q us e h))
    | inr k ↦ rw k (Occurs-column t q us e h)
  ]

  pub index_of_member :
      (t : Task Fields) (q : Task Fields → Bool) (ts : List (Task Fields))
      → Distinct ts
      → Occurs t ts
      → q t ≡ true
      → count (λ u. q u && u.rank == t.rank) ts ≤ 1
      → index_of t.id (column q ts) ≡ some (count (λ u. q u && ltb u.rank t.rank) ts)
  index_of_member t q ts d o e r = rw (← count-column (λ u. ltb u.rank t.rank) q ts) (
      index_of_sorted t (column q ts) (sort-IsSorted (filter q ts)) (column-Distinct q ts d)
        (rw (count-column (λ u. u.rank == t.rank) q ts) r) (Occurs-column t q ts e o))

  count_apart :
      (t : Task Fields) (q : Task Fields → Bool) (ts : List (Task Fields))
      → count (has_id t.id) ts ≤ 1
      → Occurs t ts
      → q t ≡ false
      → count (λ u. q u && has_id t.id u) ts ≡ 0
  count_apart t q [] d o e = refl
  count_apart t q (u ∷ us) d (inl h) e =
      rw (h, e) (omega (arith, count-le (has_id t.id) q us, rw (h, ==_refl t.id) at d))
  count_apart t q (u ∷ us) d (inr h) e =
      ground (arith, count_apart t q us, count_of_Occurs (has_id t.id) t us h (==_refl t.id))

  pub index_of_other :
      (t : Task Fields) (q : Task Fields → Bool) (ts : List (Task Fields))
      → Distinct ts
      → Occurs t ts
      → q t ≡ false
      → index_of t.id (column q ts) ≡ none
  index_of_other t q ts d o e =
      index_of_absent t.id (column q ts)
        (count-column (has_id t.id) q ts ∙ count_apart t q ts (d t.id) o e)

  abbrev pub below : ℕ → TaskStatus → (ℕ → Bool) → List (Task Fields) → ℕ → ℕ
  below p v keep ts k = count (λ u. kept_in p v keep u && ltb u.rank k) ts

  below-zero :
      (p : ℕ) (v : TaskStatus) (keep : ℕ → Bool) (ts : List (Task Fields)) → below p v keep ts 0 ≡ 0
  below-zero p v keep [] = refl
  below-zero p v keep (t ∷ ts) = ground (arith, below-zero p v keep ts)

  below-suc :
      (p : ℕ) (v : TaskStatus) (keep : ℕ → Bool) (k : ℕ) (ts : List (Task Fields))
      → below p v keep ts (suc k) ≡ below p v keep ts k + cards p v keep ts k
  below-suc p v keep k [] = omega arith
  below-suc p v keep k (t ∷ ts) = ground (arith, below-suc p v keep k ts)

  below_dense :
      (p : ℕ) (v : TaskStatus) (keep : ℕ → Bool) (n k : ℕ) (ts : List (Task Fields))
      → IsDense n (cards p v keep ts)
      → k ≤ n
      → below p v keep ts k ≡ k
  below_dense p v keep n zero ts d h = below-zero p v keep ts
  below_dense p v keep n (suc k) ts d h =
      ground (arith, below-suc p v keep k ts, below_dense p v keep n k ts d, d k)

  below_gapped :
      (p : ℕ) (v : TaskStatus) (keep : ℕ → Bool) (n r k : ℕ) (ts : List (Task Fields))
      → IsGapped n r (cards p v keep ts)
      → k ≤ suc n
      → below p v keep ts k ≡ (if ltb r k then k - 1 else k)
  below_gapped p v keep n r zero ts d h = ground (arith, below-zero p v keep ts)
  below_gapped p v keep n r (suc k) ts d h =
      ground (arith, below-suc p v keep k ts, below_gapped p v keep n r k ts d, d k)

  -- The index of a task among the kept tasks of its column.
  pub dense_index :
      (p : ℕ) (v : TaskStatus) (keep : ℕ → Bool) (n : ℕ) (t : Task Fields) (ts : List (Task Fields))
      → Distinct ts
      → IsDense n (cards p v keep ts)
      → Occurs t ts
      → kept_in p v keep t ≡ true
      → index_of t.id (column (kept_in p v keep) ts) ≡ some t.rank
  dense_index p v keep n t ts d dense o e =
      let seen =
        count_of_Occurs (λ u. kept_in p v keep u && u.rank == t.rank) t ts o
          (rw e (==_refl t.rank)) in
      let inside : t.rank ≤ n = ground (arith, seen, dense t.rank) in
      index_of_member t (kept_in p v keep) ts d o e (ground (arith, dense t.rank))
      ∙ ap some (below_dense p v keep n t.rank ts dense inside)

  pub gapped_index :
      (p : ℕ) (v : TaskStatus) (keep : ℕ → Bool) (n r : ℕ) (t : Task Fields)
      (ts : List (Task Fields))
      → Distinct ts
      → IsGapped n r (cards p v keep ts)
      → Occurs t ts
      → kept_in p v keep t ≡ true
      → index_of t.id (column (kept_in p v keep) ts)
        ≡ some (if ltb r t.rank then t.rank - 1 else t.rank)
  gapped_index p v keep n r t ts d gapped o e =
      let seen =
        count_of_Occurs (λ u. kept_in p v keep u && u.rank == t.rank) t ts o
          (rw e (==_refl t.rank)) in
      let inside : t.rank ≤ suc n = ground (arith, seen, gapped t.rank) in
      index_of_member t (kept_in p v keep) ts d o e (ground (arith, gapped t.rank))
      ∙ ap some (below_gapped p v keep n r t.rank ts gapped inside)
