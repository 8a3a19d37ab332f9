-- ===== src/TasksReducer/Views.antt =====
-- The tasks of one project among the server's rows: what the server answers to a client that opens a
-- board, and what the client's state should stay equal to.
use transcendence.Prelude.{
  ℕ, ◌≤◌, ◌≡◌, refl, ap, ◌∙◌, inl, inr, Bool, not, some, List, [], ◌∷◌, map, arith, ◌==◌,
  if◌then◌else◌, Bool-cases, filter, find,
}
use transcendence.Tasks.{TaskStatus, Task, has_id, is_other, place}
use transcendence.Tasks.Counts.{
  count, cards, size, shift_down, shift_up, shift_down-Shifts, shift_up-Shifts,
}
use transcendence.Tasks.Board.{all, IsBoard}
use transcendence.Tasks.Moves.{moved, removed}
use transcendence.TasksReducer.Moved.{AllIn}

module _ {Fields : Type 0} where
  abbrev pub in_project : ℕ → Task Fields → Bool
  in_project p t = t.project_id == p

  abbrev pub view : ℕ → List (Task Fields) → List (Task Fields)
  view p ts = filter (in_project p) ts

  pub view-AllIn : (p : ℕ) (ts : List (Task Fields)) → AllIn p (view p ts)
  view-AllIn p [] = tt
  view-AllIn p (t ∷ ts) = elim (Bool-cases (in_project p t)) [
    | inl e ↦ rw e (ground (arith, e), view-AllIn p ts)
    | inr e ↦ rw e (view-AllIn p ts)
  ]

  pub find-view :
      (p id : ℕ) (ts : List (Task Fields)) (x : Task Fields)
      → find (has_id id) ts ≡ some x
      → x.project_id ≡ p
      → find (has_id id) (view p ts) ≡ some x
  find-view p id [] x e h = cc
  find-view p id (t ∷ ts) x e h = ground (arith, find-view p id ts x)

  ids-view :
      (p id : ℕ) (ts : List (Task Fields)) → count (has_id id) (view p ts) ≤ count (has_id id) ts
  ids-view p id [] = omega arith
  ids-view p id (t ∷ ts) = ground (arith, ids-view p id ts)

  pub size-view :
      (p q : ℕ) (v : TaskStatus) (keep : ℕ → Bool) (ts : List (Task Fields))
      → size q v keep (view p ts) ≡ (if q == p then size q v keep ts else 0)
  size-view p q v keep [] = ground arith
  size-view p q v keep (t ∷ ts) = ground (arith, size-view p q v keep ts)

  cards-view :
      (p q : ℕ) (v : TaskStatus) (keep : ℕ → Bool) (k : ℕ) (ts : List (Task Fields))
      → cards q v keep (view p ts) k ≡ (if q == p then cards q v keep ts k else 0)
  cards-view p q v keep k [] = ground arith
  cards-view p q v keep k (t ∷ ts) = ground (arith, cards-view p q v keep k ts)

  pub view-IsBoard : (p : ℕ) (ts : List (Task Fields)) → IsBoard ts → IsBoard (view p ts)
  view-IsBoard p ts b = record {
    ids = λ i. omega (arith, ids-view p i ts, b.ids i);
    dense = λ q v k. elim (Bool-cases (q == p)) [
      | inl e ↦ rw (size-view p q v all ts, cards-view p q v all k ts, e) (b.dense q v k)
      | inr e ↦ rw (size-view p q v all ts, cards-view p q v all k ts, e) (ground arith)
    ];
  }

  view-map :
      (p : ℕ) (f : Task Fields → Task Fields) (ts : List (Task Fields))
      → ((t : Task Fields) → (f t).project_id ≡ t.project_id)
      → view p (map f ts) ≡ map f (view p ts)
  view-map p f [] h = refl
  view-map p f (t ∷ ts) h =
      let same : in_project p (f t) ≡ in_project p t = ap (λ q. q == p) (h t) in
      elim (Bool-cases (in_project p t)) [
        | inl e ↦ rw (same ∙ e, e, view-map p f ts h)
        | inr e ↦ rw (same ∙ e, e, view-map p f ts h)
      ]

  view-filter :
      (p : ℕ) (q : Task Fields → Bool) (ts : List (Task Fields))
      → view p (filter q ts) ≡ filter q (view p ts)
  view-filter p q [] = refl
  view-filter p q (t ∷ ts) = ground (arith, view-filter p q ts)

  place_project :
      (id : ℕ) (w : TaskStatus) (r : ℕ) (patch : Fields → Fields) (t : Task Fields)
      → (if has_id id t then place w r patch t else t).project_id ≡ t.project_id
  place_project id w r patch t = elim (Bool-cases (has_id id t)) [ inl e ↦ rw e | inr e ↦ rw e ]

  pub view-moved :
      (p id : ℕ) (x : Task Fields) (w : TaskStatus) (r : ℕ) (patch : Fields → Fields)
      (ts : List (Task Fields))
      → view p (moved id p x w r patch ts) ≡ moved id p x w r patch (view p ts)
  view-moved p id x w r patch ts =
      view-map p _ _ (place_project id w r patch)
      ∙ ap (map (λ t. if has_id id t then place w r patch t else t)) (
          view-map p _ _ ((shift_up-Shifts p w r (is_other (some id))).project_id)
          ∙ ap (map (shift_up p w r (is_other (some id))))
              (view-map p _ ts ((shift_down-Shifts p x.status x.rank).project_id)))

  pub view-removed :
      (p id : ℕ) (x : Task Fields) (ts : List (Task Fields))
      → view p (removed id p x ts) ≡ removed id p x (view p ts)
  view-removed p id x ts =
      view-map p _ _ ((shift_down-Shifts p x.status x.rank).project_id)
      ∙ ap (map (shift_down p x.status x.rank)) (view-filter p (λ t. not (has_id id t)) ts)
