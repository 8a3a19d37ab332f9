-- ===== src/Relationships/View.antt =====
-- Requests and removals: what they do to the stances of all users, in terms of those before.
use transcendence.Prelude.{
  ℕ, ◌≡◌, refl, sym, subst, ◌∙◌, ◌≢◌, inl, inr, true, not, ◌&&◌, Option, none, some, arith, ◌==◌,
  if◌then◌else◌, Bool-cases, ok,
}
use transcendence.Prisma.{Table}
use transcendence.Relationships.{
  RelationshipStatus, pending_approval, accepted, blocked, UserRelationship, is_row, is_blocked,
  create, remove, create_transaction, create_rows, status_of, is_blocked_row,
}
use transcendence.Relationships.Rows.{IsUnique, unless, stance_in-deleted, deleted-IsUnique}
use transcendence.Relationships.Spec.{
  distinct, is_blocked_stance, request_spec, create_spec, stance, status-find_first, Ends,
  both_missing, at_pair, unchanged,
}

module _ (T : Table UserRelationship) where
  create_rows-Ends :
      (caller other : ℕ) (s : T.State) (mine theirs : Option UserRelationship)
      → other ≢ caller
      → status_of T mine ≡ stance T caller other s
      → status_of T theirs ≡ stance T other caller s
      → IsUnique (T.rows s)
      → (t : Option RelationshipStatus) → stance T other caller s ≡ t
      → Ends T caller other s
          (create_rows T mine t theirs caller other s)
          (request_spec other caller (stance T caller other s) t)
  create_rows-Ends caller other s mine theirs ne em et u (some accepted) e =
      (refl, rw (← e) (unchanged T caller other s), u)
  create_rows-Ends caller other s mine theirs ne em et u (some blocked) e =
      (refl, rw (← e) (unchanged T caller other s), u)
  create_rows-Ends caller other s mine theirs ne em et u none e =
      let (view, u') = both_missing T caller other s mine theirs ne em et u in
      (refl, rw e at view, u')
  create_rows-Ends caller other s mine theirs ne em et u (some pending_approval) e =
      let (view, u') = both_missing T caller other s mine theirs ne em et u in
      (refl, rw e at view, u')

  blocked_row :
      (o : Option UserRelationship) (v : Option RelationshipStatus)
      → status_of T o ≡ v
      → is_blocked_row T o ≡ is_blocked_stance v
  blocked_row none v e = rw (← e)
  blocked_row (some r) v e = rw (← e)

  create_transaction-Ends :
      (caller other : ℕ) (s : T.State)
      → other ≢ caller
      → IsUnique (T.rows s)
      → Ends T caller other s
          (create_transaction T other caller s)
          (create_spec other caller (stance T caller other s) (stance T other caller s))
  unfolding create_transaction
  create_transaction-Ends caller other s ne u =
      let mine = T.find_first (is_row caller other) s in
      let em = status-find_first T caller other s u in
      let et = status-find_first T other caller s u in
      elim (Bool-cases (is_blocked_stance (stance T caller other s))) [
        | inl e ↦ rw (e, blocked_row mine _ em ∙ e) (refl, unchanged T caller other s, u)
        | inr e ↦
            let theirs = T.find_first (is_row other caller) s in
            rw (e, blocked_row mine _ em ∙ e)
              (subst
                (λ t.
                  Ends T caller other s
                    (create_rows T mine (status_of T theirs) theirs caller other s)
                    (request_spec other caller (stance T caller other s) t))
                et (create_rows-Ends caller other s mine theirs ne em et u _ (sym et)))
      ]

  -- What `remove` leaves of a stance: a block, or nothing.
  abbrev pub kept : Option RelationshipStatus → Option RelationshipStatus
  kept = unless (λ v. not (is_blocked v))

  abbrev purge : ℕ → ℕ → T.State → T.State
  purge c d s = T.delete_many (λ r. is_row c d r && not (is_blocked r.status)) s

  stance-purge :
      (a b c d : ℕ) (s : T.State)
      → IsUnique (T.rows s)
      → stance T a b (purge c d s)
        ≡ (if a == c && b == d then kept (stance T a b s) else stance T a b s)
  stance-purge a b c d s u =
      rw (T.rows-delete_many (λ r. is_row c d r && not (is_blocked r.status)) s)
        (stance_in-deleted a b c d (λ v. not (is_blocked v)) (T.rows s) u)

  purge-IsUnique : (c d : ℕ) (s : T.State) → IsUnique (T.rows s) → IsUnique (T.rows (purge c d s))
  purge-IsUnique c d s u =
      rw (T.rows-delete_many (λ r. is_row c d r && not (is_blocked r.status)) s)
        (deleted-IsUnique c d (λ v. not (is_blocked v)) (T.rows s) u)

  -- With at most one row for each direction, removing a different user deletes the rows of both
  -- that are not blocks and succeeds; all other stances and the uniqueness of rows are kept.
  pub remove-Ends :
      (caller other : ℕ) (s : T.State)
      → other ≢ caller
      → IsUnique (T.rows s)
      → Ends T caller other s (remove T other caller s) (
        record { mine = kept (stance T caller other s); theirs = kept (stance T other caller s) },
        ok tt,
      )
  unfolding remove
  remove-Ends caller other s ne u =
      let s1 = purge caller other s in
      let u1 = purge-IsUnique caller other s u in
      rw (distinct T caller other ne) (
        refl,
        λ a b. ground (
          arith,
          stance-purge a b other caller s1 u1,
          stance-purge a b caller other s u,
          at_pair T a b caller other s,
          at_pair T a b other caller s,
        ),
        purge-IsUnique other caller s1 u1,
      )

  -- With at most one row for each direction, a request to a different, reachable user answers, and
  -- leaves the two users' stances, as the specification on the pair says; all other stances and
  -- the uniqueness of rows are kept.
  pub create-Ends :
      (caller other : ℕ) (s : T.State)
      → other ≢ caller
      → IsUnique (T.rows s)
      → Ends T caller other s
          (create T true other caller s)
          (create_spec other caller (stance T caller other s) (stance T other caller s))
  unfolding create
  create-Ends caller other s ne u =
      rw (distinct T caller other ne) (create_transaction-Ends caller other s ne u)
