-- ===== src/TasksReducer/Agrees.antt =====
-- A client that applies a move does to its tasks what the server did to its rows.
use transcendence.Prelude.{
  ℕ, ◌+◌, ◌≤◌, min, ◌≡◌, refl, sym, ap, subst, ◌∙◌, inl, inr, Bool, true, false, ◌&&◌, Option, none,
  some, List, [], ◌∷◌, map, arith, ltb, ◌==◌, if◌then◌else◌, ==_refl, Bool-cases, length, find, All,
  pos,
}
use mathlib.Core.Option
use transcendence.JsMap.{get}
use transcendence.Tasks.{TaskStatus, Task, has_id, in_column, is_other, place}
use transcendence.Tasks.Counts.{count}
use transcendence.Tasks.Board.{IsBoard, status_index-inj}
use transcendence.Tasks.Moves.{moved}
use transcendence.Tasks.Order.{shifted, shifted-Shifts, shifted-rank, after_up, after_down}
use transcendence.TasksReducer.{same_status, splice, take_position, column_without, move_to}
use transcendence.TasksReducer.Columns.{
  index_of, Distinct, Occurs, index_of-splice, count_of_Occurs,
}
use transcendence.TasksReducer.Moved.{
  AllIn, column_without_is, task-eq, take_position_is, index_without, source, positions, position,
  position_of_moved,
}

-- Where a task other than the moved one goes: `c` tells whether it is in the column `v` that the moved
-- one leaves, `d` whether in the column `w` that it comes to.
abbrev other_place : TaskStatus → TaskStatus → ℕ → ℕ → Bool → Bool → Option (TaskStatus × ℕ)
other_place v w a u c true = some (w, u)
other_place v w a u true false = some (v, a)
other_place v w a u false false = none

merge :
    (v w : TaskStatus) (a u : ℕ) (s c d : Bool)
    → (s ≡ true → c ≡ d)
    → (s ≡ false → (c && d) ≡ false)
    → (elim (if s then none else if c then some a else none) as (λ o. Option (TaskStatus × ℕ)) [
      | some k ↦ some (v, k)
      | none ↦ elim (if d then some u else none) as (λ o. Option (TaskStatus × ℕ)) [
        | some k ↦ some (w, k)
        | none ↦ none
      ]
    ])
      ≡ other_place v w a u c d
merge v w a u true true true h g = refl
merge v w a u true true false h g = ground (arith, h refl)
merge v w a u true false true h g = ground (arith, h refl)
merge v w a u true false false h g = refl
merge v w a u false true true h g = ground (arith, g refl)
merge v w a u false true false h g = refl
merge v w a u false false true h g = refl
merge v w a u false false false h g = refl

min_le : (r n : ℕ) → r ≤ n → min r n ≡ r
min_le r n h = omega arith

module _ {Fields : Type 0} where
  pub find_of_Occurs :
      (t : Task Fields) (ts : List (Task Fields))
      → count (has_id t.id) ts ≤ 1
      → Occurs t ts
      → find (has_id t.id) ts ≡ some t
  find_of_Occurs t [] d o = absurd (omega arith)
  find_of_Occurs t (u ∷ us) d (inl h) = rw (h, ==_refl t.id)
  find_of_Occurs t (u ∷ us) d (inr h) =
      ground (arith, find_of_Occurs t us, count_of_Occurs (has_id t.id) t us h (==_refl t.id))

  pub same_task :
      (ts : List (Task Fields)) (t x : Task Fields)
      → Distinct ts
      → Occurs t ts
      → find (has_id x.id) ts ≡ some x
      → t.id ≡ x.id
      → t ≡ x
  same_task ts t x d o e h =
      let found : find (has_id x.id) ts ≡ some t =
        subst (λ i. find (has_id i) ts ≡ some t) h (find_of_Occurs t ts (d t.id) o) in
      cc

  pub All-of-Occurs :
      {P : Task Fields → Type 0} (ts : List (Task Fields))
      → ((t : Task Fields) → Occurs t ts → P t)
      → All P ts
  All-of-Occurs [] h = tt
  All-of-Occurs (t ∷ ts) h = (h t (inl refl), All-of-Occurs ts (λ u o. h u (inr o)))

  pub of_All :
      (P : Task Fields → Type 0) {t : Task Fields} (ts : List (Task Fields))
      → All P ts
      → Occurs t ts
      → P t
  of_All P [] h o = absurd (omega arith)
  of_All P (u ∷ us) h (inl e) = subst P e h.0
  of_All P (u ∷ us) h (inr o) = of_All P us h.1 o

  pub if_true : (c : Bool) (a b : Task Fields) → c ≡ true → (if c then a else b) ≡ a
  if_true c a b e = rw e

  pub if_false : (c : Bool) (a b : Task Fields) → c ≡ false → (if c then a else b) ≡ b
  if_false c a b e = rw e

  pub map-map-map :
      (f g h k : Task Fields → Task Fields) (ts : List (Task Fields))
      → All (λ t. f t ≡ g (h (k t))) ts
      → map f ts ≡ map g (map h (map k ts))
  map-map-map f g h k [] a = refl
  map-map-map f g h k (t ∷ ts) a = rw (a.0, map-map-map f g h k ts a.1)

  module _ (p : ℕ) (x : Task Fields) (w : TaskStatus) (r : ℕ) (ts : List (Task Fields))
      (b : IsBoard ts) (e : find (has_id x.id) ts ≡ some x) (all_in : AllIn p ts)
      (ep : x.project_id ≡ p) (fits : r ≤ length (column_without x w ts)) where
    module _ (t : Task Fields) (tp : t.project_id ≡ p) (o : Occurs t ts)
        (apart : (t.id == x.id) ≡ false) where
      abbrev closed_rank : ℕ
      closed_rank = after_down (in_column p x.status t) x.rank t.rank

      index_in :
          (v : TaskStatus)
          → index_of t.id (column_without x v ts)
            ≡ (if same_status t.status v then some closed_rank else none)
      index_in v =
          rw (column_without_is p x v ts all_in) (index_without p x t v ts b e ep tp o apart)

      index_in_dest : index_of t.id (splice r x (column_without x w ts)) ≡ (
          if same_status t.status w
          then some (if ltb closed_rank r then closed_rank else closed_rank + 1)
          else none)
      index_in_dest =
          index_of-splice r t.id x (column_without x w ts) fits (ground (arith, apart))
          ∙ ap (Option.map (λ j. if ltb j r then j else j + 1)) (index_in w)
          ∙ through (same_status t.status w)
        where
          through :
              (c : Bool)
              → Option.map
                  (λ j. if ltb j r then j else j + 1)
                  (if c then some closed_rank else none)
                ≡ (if c
                    then some (if ltb closed_rank r then closed_rank else closed_rank + 1)
                    else none)
          through true = refl
          through false = refl

      index_in_source : index_of t.id (source x w ts) ≡ (
          if same_status x.status w
          then none
          else if same_status t.status x.status
          then some closed_rank
          else none)
      index_in_source = elim (Bool-cases (same_status x.status w)) [
        | inl same ↦ rw same
        | inr other ↦ rw other (index_in x.status)
      ]

      position_of_other :
          get t.id (positions x w r ts)
          ≡ other_place x.status w closed_rank
              (if ltb closed_rank r then closed_rank else closed_rank + 1)
              (same_status t.status x.status)
              (same_status t.status w)
      position_of_other =
          position x w r t.id ts _ _ b.ids index_in_source index_in_dest
          ∙ merge x.status w closed_rank _ (same_status x.status w) (same_status t.status x.status)
              (same_status t.status w) (λ h. ground (arith, h)) (λ h. ground (arith, h))

      shifted_is :
          (v : TaskStatus) (k : ℕ)
          → t.status ≡ v
          → k ≡ after_up (in_column p w t) r (is_other (some x.id) t.id) closed_rank
          → record t { status = v; rank = k } ≡ shifted x.id p x w r t
      shifted_is v k ev ek =
          let sh = shifted-Shifts x.id p x w r in
          task-eq (record t { status = v; rank = k }) (shifted x.id p x w r t) (sym (sh.id t))
            (sym (sh.project_id t)) (sym ev ∙ sym (sh.status t))
            (ek ∙ sym (shifted-rank x.id p x w r t)) (sym (sh.fields t))

      placed :
          (c d : Bool)
          → same_status t.status x.status ≡ c
          → same_status t.status w ≡ d
          → take_position
              (other_place x.status w closed_rank
                (if ltb closed_rank r then closed_rank else closed_rank + 1)
                c
                d)
              t
            ≡ shifted x.id p x w r t
      placed c true ec ed =
          take_position_is w _ t
          ∙ shifted_is w _ (status_index-inj t.status w (ground (arith, ed))) (ground (arith, ed))
      placed true false ec ed =
          take_position_is x.status _ t
          ∙ shifted_is x.status _ (status_index-inj t.status x.status (ground (arith, ec)))
              (ground (arith, ed))
      placed false false ec ed = shifted_is t.status t.rank refl (ground (arith, ec, ed))

      -- Another task comes to stand where the server's shifts put it.
      repositioned : take_position (get t.id (positions x w r ts)) t ≡ shifted x.id p x w r t
      repositioned = ap (λ o. take_position o t) position_of_other ∙ placed _ _ refl refl

    repositioned_moved :
        Occurs x ts
        → take_position (get x.id (positions x w r ts)) x
          ≡ place w r (λ f. f) (shifted x.id p x w r x)
    repositioned_moved o =
        let sh = shifted-Shifts x.id p x w r in
        rw (position_of_moved x w r ts b.ids o fits) (
          take_position_is w r x
          ∙ task-eq (record x { status = w; rank = r })
              (place w r (λ f. f) (shifted x.id p x w r x)) (sym (sh.id x)) (sym (sh.project_id x))
              refl refl (sym (sh.fields x)))

    repositioned_any :
        (t : Task Fields)
        → t.project_id ≡ p
        → Occurs t ts
        → take_position (get t.id (positions x w r ts)) t ≡ (
            if has_id x.id (shifted x.id p x w r t)
            then place w r (λ f. f) (shifted x.id p x w r t)
            else shifted x.id p x w r t)
    repositioned_any t tp o =
        let seen : has_id x.id (shifted x.id p x w r t) ≡ (t.id == x.id) =
          ap (λ i. i == x.id) ((shifted-Shifts x.id p x w r).id t) in
        elim (Bool-cases (t.id == x.id)) [
          | inl same ↦
              let is_x : t ≡ x = same_task ts t x b.ids o e (ground (arith, same)) in
              subst
                (λ u.
                  take_position (get u.id (positions x w r ts)) u
                  ≡ place w r (λ f. f) (shifted x.id p x w r u))
                (sym is_x) (repositioned_moved (subst (λ u. Occurs u ts) is_x o))
              ∙ sym (if_true _ _ _ (seen ∙ same))
          | inr other ↦ repositioned t tp o other ∙ sym (if_false _ _ _ (seen ∙ other))
        ]

    pub move_to_is : move_to x w (pos r) ts ≡ moved x.id p x w r (λ f. f) ts
    unfolding move_to
    move_to_is = rw (min_le r (length (column_without x w ts)) fits) (
        map-map-map _ _ _ _ ts (
          All-of-Occurs ts
            (λ t o. repositioned_any t (of_All (λ u. u.project_id ≡ p) ts all_in o) o)))
