-- ===== src/Relationships/Consent.antt =====
-- What no sequence of calls can do: make up a friendship, lift another user's block.
use transcendence.Prelude.{
  ℕ, ◌≡◌, sym, ap, subst, ◌∙◌, ◌≢◌, ◌⊎◌, inl, inr, Bool, true, false, not, ◌&&◌, Option, none, some,
  List, [], ◌∷◌, arith, ◌==◌, ==_iff, Bool-cases, All,
}
use transcendence.Prisma.{Table}
use transcendence.Relationships.{
  RelationshipStatus, pending_approval, accepted, blocked, UserRelationship, is_blocked, create,
  update, remove,
}
use transcendence.Relationships.Rows.{IsUnique, unless}
use transcendence.Relationships.Spec.{Pair, create_spec, update_spec, stance, at_pair, after}
use transcendence.Relationships.View.{create-Ends, remove-Ends}
use transcendence.Relationships.Answer.{update-Ends}

-- The requests that a user can send about another.
pub data Call : Type 0 where
  requests : (addressee_found : Bool) → Call
  answers : RelationshipStatus → Call
  removes : Call

-- `caller` asks about `other`.
pub record Request : Type 0 where
  pub caller : ℕ
  pub other : ℕ
  pub call : Call

abbrev pub spec : Call → ℕ → ℕ → Option RelationshipStatus → Option RelationshipStatus → Pair
spec (requests true) other caller mine theirs = (create_spec other caller mine theirs).0
spec (requests false) other caller mine theirs = record { mine = mine; theirs = theirs }
spec (answers status) other caller mine theirs = (update_spec status mine theirs).0
spec removes other caller mine theirs = record {
  mine = unless (λ v. not (is_blocked v)) mine;
  theirs = unless (λ v. not (is_blocked v)) theirs;
}

-- The stances that two users can have: a row alone is a block, and a request waits for the answer
-- of one side only.
abbrev pub IsConsistent : Option RelationshipStatus → Option RelationshipStatus → Type 0
IsConsistent none none = Unit
IsConsistent none (some v) = v ≡ blocked
IsConsistent (some v) none = v ≡ blocked
IsConsistent (some pending_approval) (some v) = v ≢ pending_approval
IsConsistent (some _) (some v) = Unit

IsConsistent-sym : (x y : Option RelationshipStatus) → IsConsistent x y → IsConsistent y x
IsConsistent-sym none none h = tt
IsConsistent-sym none (some v) h = h
IsConsistent-sym (some v) none h = h
IsConsistent-sym (some v) (some w) h = ground arith

spec-IsConsistent :
    (c : Call) (other caller : ℕ) (x y : Option RelationshipStatus)
    → IsConsistent x y
    → IsConsistent (spec c other caller x y).mine (spec c other caller x y).theirs
spec-IsConsistent (requests true) other caller x y h = ground arith
spec-IsConsistent (requests false) other caller x y h = h
spec-IsConsistent (answers status) other caller x y h = ground arith
spec-IsConsistent removes other caller x y h = ground arith

spec_consent :
    (c : Call) (other caller : ℕ) (x y : Option RelationshipStatus)
    → (spec c other caller x y).theirs ≡ some accepted
    → y ≡ some accepted
spec_consent (requests true) other caller x y e = ground arith
spec_consent (requests false) other caller x y e = e
spec_consent (answers status) other caller x y e = ground arith
spec_consent removes other caller x y e = ground arith

spec_block :
    (c : Call) (other caller : ℕ) (x y : Option RelationshipStatus)
    → y ≡ some blocked
    → (spec c other caller x y).theirs ≡ some blocked
spec_block (requests true) other caller x y e = ground arith
spec_block (requests false) other caller x y e = e
spec_block (answers status) other caller x y e = ground arith
spec_block removes other caller x y e = ground arith

module _ (T : Table UserRelationship) where
  unfoldable pub perform : Call → ℕ → ℕ → T.State → T.State
  perform (requests found) other caller s = (create T found other caller s).0
  perform (answers status) other caller s = (update T other caller status s).0
  perform removes other caller s = (remove T other caller s).0

  unfoldable pub run : List Request → T.State → T.State
  run [] s = s
  run (r ∷ rs) s = run rs (perform r.call r.other r.caller s)

  abbrev Performs : Call → ℕ → ℕ → T.State → Type 0
  Performs c other caller s =
      ((a b : ℕ)
        → stance T a b (perform c other caller s)
          ≡ after T caller other
              (spec c other caller (stance T caller other s) (stance T other caller s)) s a b)
      × IsUnique (T.rows (perform c other caller s))

  create_not_found : (other caller : ℕ) (s : T.State) → (create T false other caller s).0 ≡ s
  unfolding create
  create_not_found other caller s = ground arith

  unchanged :
      (caller other : ℕ) (s : T.State) (a b : ℕ)
      → stance T a b s
        ≡ after T caller other
            (record { mine = stance T caller other s; theirs = stance T other caller s })
            s
            a
            b
  unchanged caller other s a b =
      ground (arith, at_pair T a b caller other s, at_pair T a b other caller s)

  perform-Performs :
      (c : Call) (caller other : ℕ) (s : T.State)
      → other ≢ caller
      → IsUnique (T.rows s)
      → Performs c other caller s
  unfolding perform
  perform-Performs (requests true) caller other s ne u =
      let (_, view, u') = create-Ends T caller other s ne u in (view, u')
  perform-Performs (requests false) caller other s ne u =
      rw (create_not_found other caller s) (unchanged caller other s, u)
  perform-Performs (answers status) caller other s ne u =
      let (_, view, u') = update-Ends T caller other status s ne u in (view, u')
  perform-Performs removes caller other s ne u =
      let (_, view, u') = remove-Ends T caller other s ne u in (view, u')

  -- A user has no relationship with oneself.
  perform_self : (c : Call) (user : ℕ) (s : T.State) → perform c user user s ≡ s
  unfolding perform create update remove
  perform_self (requests found) user s = ground arith
  perform_self (answers status) user s = ground arith
  perform_self removes user s = ground arith

  pub record IsSound (s : T.State) : Type 0 where
    pub unique : IsUnique (T.rows s)
    pub consistent : (a b : ℕ) → a ≢ b → IsConsistent (stance T a b s) (stance T b a s)

  perform-IsConsistent :
      (c : Call) (caller other : ℕ) (s : T.State)
      → other ≢ caller
      → IsSound s
      → (a b : ℕ) → a ≢ b
      → IsConsistent
          (stance T a b (perform c other caller s))
          (stance T b a (perform c other caller s))
  perform-IsConsistent c caller other s ne v a b d =
      let (view, _) = perform-Performs c caller other s ne v.unique in
      let pair =
        spec-IsConsistent c other caller _ _ (v.consistent caller other (λ e. ne (sym e))) in
      let flip = IsConsistent-sym _ _ pair in
      rw (view a b, view b a) (ground (arith, pair, flip, v.consistent a b d))

  perform-IsSound :
      (c : Call) (caller other : ℕ) (s : T.State) → IsSound s → IsSound (perform c other caller s)
  perform-IsSound c caller other s v = elim (Bool-cases (other == caller)) [
    | inl e ↦
        subst (λ o. IsSound (perform c o caller s)) (sym ((==_iff other caller).0 e))
          (subst IsSound (sym (perform_self c caller s)) v)
    | inr e ↦
        let ne : other ≢ caller = ground arith in
        record {
          unique = (perform-Performs c caller other s ne v.unique).1;
          consistent = perform-IsConsistent c caller other s ne v;
        }
  ]

  -- The other user's stance after any call, from the stances before.
  theirs_after :
      (c : Call) (caller other : ℕ) (s : T.State) (a b : ℕ)
      → IsUnique (T.rows s)
      → caller ≢ a
      → (stance T a b (perform c other caller s) ≡ stance T a b s)
        ⊎ (stance T a b (perform c other caller s)
            ≡ (spec c other caller (stance T b a s) (stance T a b s)).theirs)
  theirs_after c caller other s a b u n = elim (Bool-cases (other == caller)) [
    | inl e ↦ inl (
        subst (λ o. stance T a b (perform c o caller s) ≡ stance T a b s)
          (sym ((==_iff other caller).0 e)) (ap (stance T a b) (perform_self c caller s)))
    | inr e ↦
        let (view, _) = perform-Performs c caller other s (ground arith) u in
        elim (Bool-cases (a == other && b == caller)) [
          | inl here ↦ inr (
              view a b ∙ ground (arith, at_pair T a b other caller s, at_pair T b a caller other s))
          | inr elsewhere ↦ inl (view a b ∙ ground arith)
        ]
  ]

  perform_consent :
      (c : Call) (caller other : ℕ) (s : T.State) (a b : ℕ)
      → IsUnique (T.rows s)
      → caller ≢ a
      → stance T a b (perform c other caller s) ≡ some accepted
      → stance T a b s ≡ some accepted
  perform_consent c caller other s a b u n e = elim (theirs_after c caller other s a b u n) [
    | inl same ↦ sym same ∙ e
    | inr new ↦ spec_consent c other caller (stance T b a s) _ (sym new ∙ e)
  ]

  perform_block :
      (c : Call) (caller other : ℕ) (s : T.State) (a b : ℕ)
      → IsUnique (T.rows s)
      → caller ≢ a
      → stance T a b s ≡ some blocked
      → stance T a b (perform c other caller s) ≡ some blocked
  perform_block c caller other s a b u n e = elim (theirs_after c caller other s a b u n) [
    | inl same ↦ same ∙ e
    | inr new ↦ new ∙ spec_block c other caller (stance T b a s) _ e
  ]

  perform-IsUnique :
      (c : Call) (caller other : ℕ) (s : T.State)
      → IsUnique (T.rows s)
      → IsUnique (T.rows (perform c other caller s))
  perform-IsUnique c caller other s u = elim (Bool-cases (other == caller)) [
    | inl e ↦
        subst (λ o. IsUnique (T.rows (perform c o caller s))) (sym ((==_iff other caller).0 e))
          (subst (λ t. IsUnique (T.rows t)) (sym (perform_self c caller s)) u)
    | inr e ↦ (perform-Performs c caller other s (ground arith) u).1
  ]

  -- Starting from sound rows (no pair of users with two rows in one direction; a row without a
  -- counterpart is a block; no two users wait for each other), any sequence of requests, answers
  -- and removals leaves sound rows.
  pub run-IsSound : (rs : List Request) (s : T.State) → IsSound s → IsSound (run rs s)
  unfolding run
  run-IsSound [] s v = v
  run-IsSound (r ∷ rs) s v = run-IsSound rs _ (perform-IsSound r.call r.caller r.other s v)

  -- With at most one row for each direction, if a user's row towards another is ACCEPTED after a
  -- sequence of calls that the user did not make, it was ACCEPTED before.
  pub run_consent :
      (rs : List Request) (s : T.State) (a b : ℕ)
      → IsUnique (T.rows s)
      → All (λ r. r.caller ≢ a) rs
      → stance T a b (run rs s) ≡ some accepted
      → stance T a b s ≡ some accepted
  unfolding run
  run_consent [] s a b u n e = e
  run_consent (r ∷ rs) s a b u n e =
      perform_consent r.call r.caller r.other s a b u n.0
        (run_consent rs _ a b (perform-IsUnique r.call r.caller r.other s u) n.1 e)

  -- With at most one row for each direction, a BLOCKED row of a user stays BLOCKED through any
  -- sequence of calls that the user did not make.
  pub run_block :
      (rs : List Request) (s : T.State) (a b : ℕ)
      → IsUnique (T.rows s)
      → All (λ r. r.caller ≢ a) rs
      → stance T a b s ≡ some blocked
      → stance T a b (run rs s) ≡ some blocked
  unfolding run
  run_block [] s a b u n e = e
  run_block (r ∷ rs) s a b u n e =
      run_block rs _ a b (perform-IsUnique r.call r.caller r.other s u) n.1
        (perform_block r.call r.caller r.other s a b u n.0 e)
