-- ===== src/Relationships/Spec.antt =====
-- What each call should do to the stances of the two users, and the lemmas that the proofs share.
use transcendence.Prelude.{
  ℕ, ◌≡◌, sym, ap, ◌∙◌, ◌≢◌, Bool, true, false, not, ◌&&◌, Option, none, some, List, [], ◌∷◌, arith,
  ◌==◌, if◌then◌else◌, Result, ok, err,
}
use mathlib.Core.Path.{ap₂}
use transcendence.Prisma.{Table}
use transcendence.Relationships.{
  RelationshipStatus, pending_approval, accepted, blocked, UserRelationship, is_row, is_blocked,
  is_pending, same_as, all_equal, new_row, Error, existing_relation, unknown_user, same_status,
  invalid_status_sequence, Notice, request_received, create_if_missing, status_of,
}
use transcendence.Relationships.Rows.{
  stance_in, IsUnique, stance_in-find, at_most_one, stance_in-append, append-IsUnique,
}

-- The stances of a pair of users, each towards the other.
pub record Pair : Type 0 where
  pub mine : Option RelationshipStatus
  pub theirs : Option RelationshipStatus

-- What a call means for the caller and the other user: what it leaves of their stances, and what it
-- answers.
abbrev pub or_accepted : Option RelationshipStatus → Option RelationshipStatus
or_accepted none = some accepted
or_accepted (some v) = some v

abbrev pub or_pending : Option RelationshipStatus → Option RelationshipStatus
or_pending none = some pending_approval
or_pending (some v) = some v

abbrev pub is_blocked_stance : Option RelationshipStatus → Bool
is_blocked_stance none = false
is_blocked_stance (some v) = is_blocked v

abbrev pub nothing_left : Option RelationshipStatus → Bool
nothing_left none = true
nothing_left (some v) = is_blocked v

abbrev pub request_spec :
    ℕ
    → ℕ
    → Option RelationshipStatus
    → Option RelationshipStatus
    → Pair × Result Error (List Notice)
request_spec other caller mine (some accepted) =
    (record { mine = mine; theirs = some accepted }, err existing_relation)
request_spec other caller mine (some blocked) =
    (record { mine = mine; theirs = some blocked }, ok [])
request_spec other caller mine theirs = (
  record { mine = or_accepted mine; theirs = or_pending theirs },
  ok (request_received other caller ∷ []),
)

abbrev pub create_spec :
    ℕ
    → ℕ
    → Option RelationshipStatus
    → Option RelationshipStatus
    → Pair × Result Error (List Notice)
create_spec other caller mine theirs =
    if is_blocked_stance mine
    then (record { mine = mine; theirs = theirs }, err existing_relation)
    else request_spec other caller mine theirs

abbrev pub update_known :
    RelationshipStatus
    → RelationshipStatus
    → Option RelationshipStatus
    → Pair × Result Error (Option RelationshipStatus)
update_known status current theirs =
    let same : Pair = record { mine = some current; theirs = theirs } in
    if same_as current status
    then (same, err same_status)
    else if not (is_pending current) && is_pending status
    then (same, err invalid_status_sequence)
    else if is_blocked current && not (is_blocked status) && nothing_left theirs
    then (record { mine = none; theirs = theirs }, ok (some current))
    else (record { mine = some status; theirs = theirs }, ok (some current))

abbrev pub update_spec :
    RelationshipStatus
    → Option RelationshipStatus
    → Option RelationshipStatus
    → Pair × Result Error (Option RelationshipStatus)
update_spec status none theirs =
    if is_blocked status
    then (record { mine = some status; theirs = theirs }, ok none)
    else (record { mine = none; theirs = theirs }, err unknown_user)
update_spec status (some current) theirs = update_known status current theirs

module _ (T : Table UserRelationship) where
  abbrev pub stance : ℕ → ℕ → T.State → Option RelationshipStatus
  stance a b s = stance_in a b (T.rows s)

  -- The stances after a call of `caller` about `other`: theirs as given, all others as before.
  abbrev pub after : ℕ → ℕ → Pair → T.State → ℕ → ℕ → Option RelationshipStatus
  after caller other p s a b =
      if a == caller && b == other
      then p.mine
      else if a == other && b == caller
      then p.theirs
      else stance a b s

  pub status-find_first :
      (a b : ℕ) (s : T.State)
      → IsUnique (T.rows s)
      → status_of T (T.find_first (is_row a b) s) ≡ stance a b s
  status-find_first a b s u =
      ap (status_of T) (T.find_first_lem (is_row a b) s (at_most_one a b (T.rows s) u))
      ∙ stance_in-find a b (T.rows s)

  -- A row is added where there was none.
  pub stance-create_if_missing :
      (o : Option UserRelationship) (row : UserRelationship) (s : T.State) (a b : ℕ)
      → status_of T o ≡ stance row.requester_id row.addressee_id s
      → stance a b (create_if_missing T o row s) ≡ (
          if a == row.requester_id && b == row.addressee_id
          then (elim (status_of T o) [ none ↦ some row.status | some v ↦ some v ])
          else stance a b s)
  stance-create_if_missing none row s a b e =
      rw (T.rows-create row s) (ground (arith, stance_in-append a b (T.rows s) row))
  stance-create_if_missing (some r) row s a b e = ground arith

  pub create_if_missing-IsUnique :
      (o : Option UserRelationship) (row : UserRelationship) (s : T.State)
      → status_of T o ≡ stance row.requester_id row.addressee_id s
      → IsUnique (T.rows s)
      → IsUnique (T.rows (create_if_missing T o row s))
  create_if_missing-IsUnique none row s e u =
      rw (T.rows-create row s) (append-IsUnique (T.rows s) row u (sym e))
  create_if_missing-IsUnique (some r) row s e u = u

  -- How a transaction ends: its answer, the stances, and the rows' unique key.
  abbrev pub Ends : {A : Type 0} → ℕ → ℕ → T.State → T.State × A → Pair × A → Type 0
  Ends caller other s r spec =
      (r.1 ≡ spec.1)
      × ((a b : ℕ) → stance a b r.0 ≡ after caller other spec.0 s a b)
      × IsUnique (T.rows r.0)

  pub both_missing :
      (caller other : ℕ) (s : T.State) (mine theirs : Option UserRelationship)
      → other ≢ caller
      → status_of T mine ≡ stance caller other s
      → status_of T theirs ≡ stance other caller s
      → IsUnique (T.rows s)
      → let s' =
          create_if_missing T theirs
            (new_row other caller pending_approval)
            (create_if_missing T mine (new_row caller other accepted) s) in
        ((a b : ℕ)
          → stance a b s'
            ≡ after caller other
                (record {
                  mine = or_accepted (stance caller other s);
                  theirs = or_pending (stance other caller s);
                })
                s
                a
                b)
        × IsUnique (T.rows s')
  both_missing caller other s mine theirs ne em et u =
      let s1 = create_if_missing T mine (new_row caller other accepted) s in
      let view1 = stance-create_if_missing mine (new_row caller other accepted) s in
      let et1 : status_of T theirs ≡ stance other caller s1 = ground (arith, view1 other caller) in
      (
        λ a b. ground (
          arith,
          view1 a b,
          stance-create_if_missing theirs (new_row other caller pending_approval) s1 a b,
        ),
        create_if_missing-IsUnique theirs (new_row other caller pending_approval) s1 et1
            (create_if_missing-IsUnique mine (new_row caller other accepted) s em u),
      )

  pub at_pair :
      (a b c d : ℕ) (s : T.State) → (a == c && b == d) ≡ true → stance a b s ≡ stance c d s
  at_pair a b c d s e = ap₂ (λ x y. stance x y s) (ground arith) (ground arith)

  pub unchanged :
      (caller other : ℕ) (s : T.State) (a b : ℕ)
      → stance a b s
        ≡ after caller other
            (record { mine = stance caller other s; theirs = stance other caller s })
            s
            a
            b
  unchanged caller other s a b =
      ground (arith, at_pair a b caller other s, at_pair a b other caller s)

  pub distinct : (a b : ℕ) → b ≢ a → all_equal ◌==◌ (a ∷ b ∷ []) ≡ false
  distinct a b ne = ground arith
