-- ===== src/Relationships/Answer.antt =====
-- Updates: what they do to the stances of all users, in terms of those before.
use transcendence.Prelude.{
  ℕ, ◌≡◌, refl, sym, ap, subst, ◌∙◌, ◌≢◌, inl, inr, not, ◌&&◌, Option, none, some, arith,
  Bool-cases, Option-cases, ok,
}
use transcendence.Prisma.{Table}
use transcendence.Relationships.{
  RelationshipStatus, UserRelationship, is_row, is_blocked, is_pending, same_as, new_row,
  set_status, update, update_transaction, update_row, status_of, nothing_to_return_to,
  accept_notice,
}
use transcendence.Relationships.Rows.{
  IsUnique, stance_in-find, at_most_one, stance_in-updated, any_of_stance, find_of_stance,
  stance_in-erased, erased-IsUnique, updated-IsUnique,
}
use transcendence.Relationships.Spec.{
  distinct, nothing_left, update_known, update_spec, stance, status-find_first,
  stance-create_if_missing, create_if_missing-IsUnique, Ends, at_pair, unchanged,
}

module _ (T : Table UserRelationship) where
  update-some :
      (a b : ℕ) (v : RelationshipStatus) (f : UserRelationship → UserRelationship) (s : T.State)
      → stance T a b s ≡ some v
      → T.update (is_row a b) f s ≡ some (T.update_many (is_row a b) f s)
  update-some a b v f s e = T.update_lem (is_row a b) f s ∙ rw (any_of_stance a b v (T.rows s) e)

  delete-some :
      (a b : ℕ) (v : RelationshipStatus) (s : T.State)
      → IsUnique (T.rows s)
      → stance T a b s ≡ some v
      → (r : UserRelationship) × (T.delete (is_row a b) s ≡ some (r, T.delete_many (is_row a b) s))
  delete-some a b v s u e =
      let (r, found) = find_of_stance a b v (T.rows s) e in
      (r, T.delete_lem (is_row a b) s (at_most_one a b (T.rows s) u) ∙ rw found)

  set-Ends :
      {A : Type 0} (caller other : ℕ) (v w : RelationshipStatus) (s : T.State) (answer : A)
      → other ≢ caller
      → IsUnique (T.rows s)
      → stance T caller other s ≡ some v
      → Ends T caller other s
          (T.update_many (is_row caller other) (set_status w) s, answer)
          (record { mine = some w; theirs = stance T other caller s }, answer)
  set-Ends caller other v w s answer ne u e = (
    refl,
    λ a b. rw (T.rows-update_many (is_row caller other) (set_status w) s) (
        ground (
          arith,
          stance_in-updated a b caller other w (T.rows s),
          at_pair T a b caller other s,
          at_pair T a b other caller s,
        )),
    rw (T.rows-update_many (is_row caller other) (set_status w) s)
        (updated-IsUnique caller other w (T.rows s) u),
  )

  erase-Ends :
      {A : Type 0} (caller other : ℕ) (s : T.State) (answer : A)
      → other ≢ caller
      → IsUnique (T.rows s)
      → Ends T caller other s
          (T.delete_many (is_row caller other) s, answer)
          (record { mine = none; theirs = stance T other caller s }, answer)
  erase-Ends caller other s answer ne u = (
    refl,
    λ a b. rw (T.rows-delete_many (is_row caller other) s) (
        ground
          (arith, stance_in-erased a b caller other (T.rows s) u, at_pair T a b other caller s)),
    rw (T.rows-delete_many (is_row caller other) s) (erased-IsUnique caller other (T.rows s) u),
  )

  refused-Ends :
      {A : Type 0} (caller other : ℕ) (o : Option RelationshipStatus) (s : T.State) (answer : A)
      → IsUnique (T.rows s)
      → stance T caller other s ≡ o
      → Ends T caller other s
          (s, answer)
          (record { mine = o; theirs = stance T other caller s }, answer)
  refused-Ends caller other o s answer u e =
      (refl, λ a b. ground (arith, unchanged T caller other s a b), u)

  return_row :
      (o : Option UserRelationship) (v : Option RelationshipStatus)
      → status_of T o ≡ v
      → nothing_to_return_to T o ≡ nothing_left v
  return_row none v e = rw (← e)
  return_row (some r) v e = rw (← e)

  update_row-Ends :
      (caller other : ℕ) (current status : RelationshipStatus) (s : T.State)
      → other ≢ caller
      → IsUnique (T.rows s)
      → stance T caller other s ≡ some current
      → Ends T caller other s
          (update_row T current other caller status s)
          (update_known status current (stance T other caller s))
  unfolding update_row
  update_row-Ends caller other current status s ne u e =
      elim (Bool-cases (same_as current status)) [
        | inl a ↦ rw a (refused-Ends caller other (some current) s _ u e)
        | inr a ↦ elim (Bool-cases (not (is_pending current) && is_pending status)) [
          | inl b ↦ rw (a, b) (refused-Ends caller other (some current) s _ u e)
          | inr b ↦
              let back =
                return_row (T.find_first (is_row other caller) s) _
                  (status-find_first T other caller s u) in
              elim (Bool-cases (
                is_blocked current
                && not (is_blocked status)
                && nothing_left (stance T other caller s))) [
                  | inl c ↦
                      let (row, d) = delete-some caller other current s u e in
                      rw (a, b, back, c, d) (erase-Ends caller other s (ok (some current)) ne u)
                  | inr c ↦
                      rw (a, b, back, c, update-some caller other current (set_status status) s e)
                        (set-Ends caller other current status s (ok (some current)) ne u e)
                ]
        ]
      ]

  status-find_unique :
      (a b : ℕ) (s : T.State)
      → IsUnique (T.rows s)
      → status_of T (T.find_unique (is_row a b) s) ≡ stance T a b s
  status-find_unique a b s u =
      ap (status_of T) (T.find_unique_lem (is_row a b) s (at_most_one a b (T.rows s) u))
      ∙ stance_in-find a b (T.rows s)

  add-Ends :
      {A : Type 0} (caller other : ℕ) (v : RelationshipStatus) (s : T.State) (answer : A)
      → other ≢ caller
      → IsUnique (T.rows s)
      → stance T caller other s ≡ none
      → Ends T caller other s
          (T.create (new_row caller other v) s, answer)
          (record { mine = some v; theirs = stance T other caller s }, answer)
  add-Ends caller other v s answer ne u e = (
    refl,
    λ a b. ground (
      arith,
      stance-create_if_missing T none (new_row caller other v) s a b (sym e),
      at_pair T a b other caller s,
    ),
    create_if_missing-IsUnique T none (new_row caller other v) s (sym e) u,
  )

  update_transaction-Ends :
      (caller other : ℕ) (status : RelationshipStatus) (s : T.State)
      → other ≢ caller
      → IsUnique (T.rows s)
      → Ends T caller other s
          (update_transaction T other caller status s)
          (update_spec status (stance T caller other s) (stance T other caller s))
  unfolding update_transaction
  update_transaction-Ends caller other status s ne u =
      elim (Option-cases (T.find_unique (is_row caller other) s)) [
        | inl e ↦
            let h : stance T caller other s ≡ none =
              sym (status-find_unique caller other s u) ∙ ap (status_of T) e in
            elim (Bool-cases (is_blocked status)) [
              | inl b ↦
                  subst
                    (λ o.
                      Ends T caller other s (update_transaction T other caller status s)
                        (update_spec status o (stance T other caller s)))
                    (sym h)
                    (rw (e, update_transaction) (rw b (add-Ends caller other status s _ ne u h)))
              | inr b ↦
                  subst
                    (λ o.
                      Ends T caller other s (update_transaction T other caller status s)
                        (update_spec status o (stance T other caller s)))
                    (sym h)
                    (rw (e, update_transaction) (rw b (refused-Ends caller other none s _ u h)))
            ]
        | inr (row, e) ↦
            let h : stance T caller other s ≡ some row.status =
              sym (status-find_unique caller other s u) ∙ ap (status_of T) e in
            subst
              (λ o.
                Ends T caller other s (update_transaction T other caller status s)
                  (update_spec status o (stance T other caller s)))
              (sym h)
              (rw (e, update_transaction) (update_row-Ends caller other row.status status s ne u h))
      ]

  -- With at most one row for each direction, an update towards a different user answers, and
  -- leaves the two users' stances, as the specification on the pair says; all other stances and
  -- the uniqueness of rows are kept.
  pub update-Ends :
      (caller other : ℕ) (status : RelationshipStatus) (s : T.State)
      → other ≢ caller
      → IsUnique (T.rows s)
      → let spec = update_spec status (stance T caller other s) (stance T other caller s) in
        Ends T caller other s
          (update T other caller status s)
          (spec.0, accept_notice T other caller status spec.1)
  unfolding update
  update-Ends caller other status s ne u =
      let (answer, view, u') = update_transaction-Ends caller other status s ne u in
      rw (distinct T caller other ne) (ap (accept_notice T other caller status) answer, view, u')
