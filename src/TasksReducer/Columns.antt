-- ===== src/TasksReducer/Columns.antt =====
-- The index of a task in its sorted column.
use transcendence.Prelude.{
  ℕ, zero, suc, ◌+◌, ◌-◌, ◌≤◌, ◌≡◌, refl, ap, ◌⊎◌, inl, inr, Bool, true, false, Option, none, some,
  List, [], ◌∷◌, arith, ltb, leb, ◌==◌, if◌then◌else◌, leb→le, ==_refl, Bool-cases, length, All,
}
use mathlib.Core.Option
use transcendence.JsMap.{get, set}
use transcendence.JsMap.Laws.{get-set}
use transcendence.Tasks.{Task, has_id}
use transcendence.Tasks.Counts.{count}
use transcendence.TasksReducer.{insert_by_rank, sort_by_rank, set_each, splice}

module _ {Fields : Type 0} where
  abbrev pub index_of : ℕ → List (Task Fields) → Option ℕ
  index_of id [] = none
  index_of id (t ∷ ts) = if has_id id t then some 0 else Option.map suc (index_of id ts)

  abbrev pub Distinct : List (Task Fields) → Type 0
  Distinct ts = (id : ℕ) → count (has_id id) ts ≤ 1

  pub count-insert :
      (p : Task Fields → Bool) (t : Task Fields) (ts : List (Task Fields))
      → count p (insert_by_rank t ts) ≡ (if p t then 1 else 0) + count p ts
  count-insert p t [] = refl
  count-insert p t (u ∷ us) = ground (arith, count-insert p t us)

  pub count-sort :
      (p : Task Fields → Bool) (ts : List (Task Fields)) → count p (sort_by_rank ts) ≡ count p ts
  count-sort p [] = refl
  count-sort p (t ∷ ts) = rw (count-insert p t (sort_by_rank ts), count-sort p ts)

  abbrev pub IsSorted : List (Task Fields) → Type 0
  IsSorted [] = Unit
  IsSorted (t ∷ ts) = All (λ u. t.rank ≤ u.rank) ts × IsSorted ts

  All-insert :
      (n : ℕ) (t : Task Fields) (ts : List (Task Fields))
      → n ≤ t.rank
      → All (λ u. n ≤ u.rank) ts
      → All (λ u. n ≤ u.rank) (insert_by_rank t ts)
  All-insert n t [] h a = (h, tt)
  All-insert n t (u ∷ us) h a = ground (arith, All-insert n t us)

  All-le :
      (m n : ℕ) (ts : List (Task Fields))
      → m ≤ n
      → All (λ u. n ≤ u.rank) ts
      → All (λ u. m ≤ u.rank) ts
  All-le m n [] h a = tt
  All-le m n (u ∷ us) h a = (omega (arith, a.0), All-le m n us h a.1)

  insert-IsSorted :
      (t : Task Fields) (ts : List (Task Fields)) → IsSorted ts → IsSorted (insert_by_rank t ts)
  insert-IsSorted t [] s = (tt, tt)
  insert-IsSorted t (u ∷ us) s = elim (Bool-cases (leb t.rank u.rank)) [
    | inl e ↦
        let le : t.rank ≤ u.rank = leb→le t.rank u.rank e in
        rw e ((le, All-le t.rank u.rank us le s.0), s)
    | inr e ↦ rw e (All-insert u.rank t us (ground arith) s.0, insert-IsSorted t us s.1)
  ]

  pub sort-IsSorted : (ts : List (Task Fields)) → IsSorted (sort_by_rank ts)
  sort-IsSorted [] = tt
  sort-IsSorted (t ∷ ts) = insert-IsSorted t (sort_by_rank ts) (sort-IsSorted ts)

  -- A task of the list; what the list says of all, it says of the task.
  abbrev pub Occurs : Task Fields → List (Task Fields) → Type 0
  Occurs t [] = (zero ≡ suc zero)
  Occurs t (u ∷ us) = (u ≡ t) ⊎ Occurs t us

  rank_of_All :
      (n : ℕ) (t : Task Fields) (ts : List (Task Fields))
      → All (λ u. n ≤ u.rank) ts
      → Occurs t ts
      → n ≤ t.rank
  rank_of_All n t [] a o = omega arith
  rank_of_All n t (u ∷ us) a (inl e) = rw (← e) a.0
  rank_of_All n t (u ∷ us) a (inr o) = rank_of_All n t us a.1 o

  count_below_All :
      (n : ℕ) (ts : List (Task Fields))
      → All (λ u. n ≤ u.rank) ts
      → count (λ u. ltb u.rank n) ts ≡ 0
  count_below_All n [] a = refl
  count_below_All n (u ∷ us) a = ground (arith, count_below_All n us)

  pub count_of_Occurs :
      (p : Task Fields → Bool) (t : Task Fields) (ts : List (Task Fields))
      → Occurs t ts
      → p t ≡ true
      → 1 ≤ count p ts
  count_of_Occurs p t [] o e = omega arith
  count_of_Occurs p t (u ∷ us) (inl h) e = rw (h, e) (omega arith)
  count_of_Occurs p t (u ∷ us) (inr o) e = omega (arith, count_of_Occurs p t us o e)

  pub index_of_sorted :
      (t : Task Fields) (ts : List (Task Fields))
      → IsSorted ts
      → Distinct ts
      → count (λ u. u.rank == t.rank) ts ≤ 1
      → Occurs t ts
      → index_of t.id ts ≡ some (count (λ u. ltb u.rank t.rank) ts)
  index_of_sorted t [] s d r o = absurd (omega arith)
  index_of_sorted t (u ∷ us) s d r (inl e) =
      let none_below = count_below_All t.rank us (rw e at s.0) in
      rw (e, ==_refl t.id) (ground (arith, none_below))
  index_of_sorted t (u ∷ us) s d r (inr o) =
      let again = count_of_Occurs (has_id t.id) t us o (==_refl t.id) in
      let same_rank = count_of_Occurs (λ v. v.rank == t.rank) t us o (==_refl t.rank) in
      let le = rank_of_All u.rank t us s.0 o in
      let other : has_id t.id u ≡ false = ground (arith, d t.id, again) in
      let less : ltb u.rank t.rank ≡ true = ground (arith, r, same_rank, le) in
      rw (other, less)
        (rw (index_of_sorted t us s.1 (λ i. ground (arith, d i)) (ground (arith, r)) o)
          (ap some (omega arith)))

  pub index_of_absent :
      (id : ℕ) (ts : List (Task Fields)) → count (has_id id) ts ≡ 0 → index_of id ts ≡ none
  index_of_absent id [] e = refl
  index_of_absent id (t ∷ ts) e = ground (arith, index_of_absent id ts)

  shifted_on :
      {V : Type 0} (f : ℕ → V) (k id : ℕ) (t : Task Fields) (o : Option ℕ) (now d : Option V)
      → now ≡ (if id == t.id then some (f k) else d)
      → has_id id t ≡ false
      → (elim o [ none ↦ now | some i ↦ some (f (suc k + i)) ])
        ≡ (elim (Option.map suc o) [ none ↦ d | some i ↦ some (f (k + i)) ])
  shifted_on f k id t none now d h e = ground (arith, h, e)
  shifted_on f k id t (some i) now d h e = ap (λ j. some (f j)) (omega arith)

  pub get-set_each :
      {V : Type 0} (f : ℕ → V) (k id : ℕ) (ts : List (Task Fields)) (m : List (ℕ × V))
      → Distinct ts
      → get id (set_each f k ts m)
        ≡ (elim (index_of id ts) [ none ↦ get id m | some i ↦ some (f (k + i)) ])
  get-set_each f k id [] m d = refl
  get-set_each f k id (t ∷ ts) m d =
      let d' : Distinct ts = λ i. ground (arith, d i) in
      elim (Bool-cases (has_id id t)) [
        | inl e ↦
            let absent = index_of_absent id ts (ground (arith, d id, e)) in
            rw
              (
                e,
                get-set_each f (suc k) id ts (set t.id (f k) m) d',
                absent,
                get-set t.id id (f k) m,
              )
              (ground (arith, e))
        | inr e ↦
            rw (e, get-set_each f (suc k) id ts (set t.id (f k) m) d')
              (shifted_on f k id t (index_of id ts) (get id (set t.id (f k) m)) (get id m)
                (get-set t.id id (f k) m) e)
      ]

  pub count-splice :
      (p : Task Fields → Bool) (i : ℕ) (t : Task Fields) (ts : List (Task Fields))
      → count p (splice i t ts) ≡ (if p t then 1 else 0) + count p ts
  count-splice p i t [] = refl
  count-splice p i t (u ∷ us) = ground (arith, count-splice p (i - 1) t us)

  pub index_of_spliced :
      (i : ℕ) (t : Task Fields) (ts : List (Task Fields))
      → i ≤ length ts
      → count (has_id t.id) ts ≡ 0
      → index_of t.id (splice i t ts) ≡ some i
  index_of_spliced i t [] h e = ground arith
  index_of_spliced i t (u ∷ us) h e = ground (arith, index_of_spliced (i - 1) t us)

  pub index_of-splice :
      (i id : ℕ) (t : Task Fields) (ts : List (Task Fields))
      → i ≤ length ts
      → (t.id == id) ≡ false
      → index_of id (splice i t ts)
        ≡ Option.map (λ j. if ltb j i then j else j + 1) (index_of id ts)
  index_of-splice i id t [] h e = ground arith
  index_of-splice i id t (u ∷ us) h e = ground (arith, index_of-splice (i - 1) id t us)
