-- ===== src/Tasks/Board.antt =====
-- The invariant of a board, and what each step of a transaction does to it.
use transcendence.Prelude.{
  ℕ, ◌+◌, ◌-◌, ◌≤◌, ◌≡◌, inl, inr, Bool, true, false, not, ◌&&◌, none, some, List, [], ◌∷◌, ◌++◌,
  map, arith, ltb, leb, ◌==◌, if◌then◌else◌, Bool-cases, filter, find,
}
use transcendence.Tasks.{TaskStatus, Task, status_index, is_other, in_column, has_id, place}
use transcendence.Tasks.Places.{
  IsDense, IsGapped, closed-IsDense, opened-IsGapped, put-IsDense, take-IsGapped, taken-le,
}
use transcendence.Tasks.Counts.{
  same_column, count, kept_in, cards, size, shift_down, shift_up, shift_down-Shifts,
  shift_up-Shifts, cards-shift_down, cards-shift_up, cards-apart, size-Shifts, count-found,
  count-dropped, count-placed, count-append,
}

abbrev pub all : ℕ → Bool
all = is_other none

pub status_index-inj : (v w : TaskStatus) → status_index v ≡ status_index w → v ≡ w
status_index-inj v w e = ground arith

same_column-eq :
    (p : ℕ) (v : TaskStatus) (q : ℕ) (w : TaskStatus)
    → same_column p v q w ≡ true
    → (p ≡ q) × (v ≡ w)
same_column-eq p v q w e = (ground arith, status_index-inj v w (ground arith))

pub same_column_refl : (p : ℕ) (v : TaskStatus) → same_column p v p v ≡ true
same_column_refl p v = ground arith

module _ {Fields : Type 0} where
  -- Every column has one card at each rank from 0 on, among the cards whose ids pass `keep`.
  abbrev pub AllDense : (ℕ → Bool) → List (Task Fields) → Type 0
  AllDense keep ts = (p : ℕ) (v : TaskStatus) → IsDense (size p v keep ts) (cards p v keep ts)

  -- No two tasks have one id, and every column is dense.
  pub record IsBoard (ts : List (Task Fields)) : Type 0 where
    pub ids : (id : ℕ) → count (has_id id) ts ≤ 1
    pub dense : AllDense all ts

  -- As `AllDense`, but the column `q w` has a gap at rank `r`.
  pub record HasGap (q : ℕ) (w : TaskStatus) (r : ℕ) (keep : ℕ → Bool) (ts : List (Task Fields))
      : Type 0 where
    pub here : IsGapped (size q w keep ts) r (cards q w keep ts)
    pub fits : r ≤ size q w keep ts
    pub elsewhere :
        (p : ℕ) (v : TaskStatus)
        → same_column p v q w ≡ false
        → IsDense (size p v keep ts) (cards p v keep ts)

  apart :
      (p : ℕ) (v : TaskStatus) (q : ℕ) (w : TaskStatus) (t : Task Fields)
      → same_column p v q w ≡ false
      → in_column p v t ≡ true
      → in_column q w t ≡ false
  apart p v q w t e h = ground arith

  pub close-AllDense :
      (q : ℕ) (w : TaskStatus) (r : ℕ) (keep : ℕ → Bool) (ts : List (Task Fields))
      → HasGap q w r keep ts
      → AllDense keep (map (shift_down q w r) ts)
  close-AllDense q w r keep ts g p v k = elim (Bool-cases (same_column p v q w)) [
    | inl e ↦
        let (ep, ev) = same_column-eq p v q w e in
        rw
          (
            ep,
            ev,
            size-Shifts (shift_down q w r) (shift_down-Shifts q w r) q w keep ts,
            cards-shift_down q w keep r k ts,
          )
          (closed-IsDense (size q w keep ts) r (cards q w keep ts) g.fits g.here k)
    | inr e ↦
        rw
          (
            size-Shifts (shift_down q w r) (shift_down-Shifts q w r) p v keep ts,
            cards-apart p v keep (λ t. in_column q w t && ltb r t.rank) (λ x. x - 1) k ts
                (λ t h. rw (apart p v q w t e h)),
          )
          (g.elsewhere p v e k)
  ]

  pub open-HasGap :
      (q : ℕ) (w : TaskStatus) (r : ℕ) (keep : ℕ → Bool) (ts : List (Task Fields))
      → r ≤ size q w keep ts
      → AllDense keep ts
      → HasGap q w r keep (map (shift_up q w r keep) ts)
  open-HasGap q w r keep ts fits d = record {
    here = λ k.
        rw
          (
            size-Shifts (shift_up q w r keep) (shift_up-Shifts q w r keep) q w keep ts,
            cards-shift_up q w keep r k ts,
          )
          (opened-IsGapped (size q w keep ts) r (cards q w keep ts) fits (d q w) k);
    fits = rw (size-Shifts (shift_up q w r keep) (shift_up-Shifts q w r keep) q w keep ts) fits;
    elsewhere = λ p v e k.
        rw
          (
            size-Shifts (shift_up q w r keep) (shift_up-Shifts q w r keep) p v keep ts,
            cards-apart p v keep (λ t. in_column q w t && leb r t.rank && keep t.id) (λ x. x + 1) k
                ts (λ t h. rw (apart p v q w t e h)),
          )
          (d p v k);
  }

  without :
      (p : ℕ) (v : TaskStatus) (id k : ℕ) (t : Task Fields)
      → (kept_in p v (is_other (some id)) t && t.rank == k)
        ≡ ((kept_in p v all t && t.rank == k) && not (t.id == id))
  without p v id k t = ground arith

  without_any :
      (p : ℕ) (v : TaskStatus) (id : ℕ) (t : Task Fields)
      → kept_in p v (is_other (some id)) t ≡ (kept_in p v all t && not (t.id == id))
  without_any p v id t = ground arith

  -- Where the task stands, and where it does not.
  standing :
      (p : ℕ) (v : TaskStatus) (x : Task Fields) (k : ℕ)
      → (kept_in p v all x && x.rank == k) ≡ (same_column p v x.project_id x.status && k == x.rank)
  standing p v x k = ground arith

  standing_any :
      (p : ℕ) (v : TaskStatus) (x : Task Fields)
      → kept_in p v all x ≡ same_column p v x.project_id x.status
  standing_any p v x = ground arith

  pub cards-taken :
      (id : ℕ) (ts : List (Task Fields)) (x : Task Fields)
      → count (has_id id) ts ≤ 1
      → find (has_id id) ts ≡ some x
      → (p : ℕ) (v : TaskStatus) (k : ℕ)
      → cards p v all ts k
        ≡ cards p v (is_other (some id)) ts k
          + (if same_column p v x.project_id x.status && k == x.rank then 1 else 0)
  cards-taken id ts x u e p v k =
      rw (← standing p v x k) (count-found id _ _ ts x (without p v id k) u e)

  size-taken :
      (id : ℕ) (ts : List (Task Fields)) (x : Task Fields)
      → count (has_id id) ts ≤ 1
      → find (has_id id) ts ≡ some x
      → (p : ℕ) (v : TaskStatus)
      → size p v all ts
        ≡ size p v (is_other (some id)) ts
          + (if same_column p v x.project_id x.status then 1 else 0)
  size-taken id ts x u e p v =
      rw (← standing_any p v x) (count-found id _ _ ts x (without_any p v id) u e)

  pub take-HasGap :
      (id : ℕ) (ts : List (Task Fields)) (x : Task Fields)
      → IsBoard ts
      → find (has_id id) ts ≡ some x
      → HasGap x.project_id x.status x.rank (is_other (some id)) ts
  take-HasGap id ts x b e =
      let q = x.project_id in
      let w = x.status in
      let f = cards q w all ts in
      let g = cards q w (is_other (some id)) ts in
      let n = size q w (is_other (some id)) ts in
      let here : (k : ℕ) → f k ≡ g k + (if k == x.rank then 1 else 0) =
        λ k. rw (same_column_refl q w) at (cards-taken id ts x (b.ids id) e q w k) in
      let more : size q w all ts ≡ n + 1 =
        rw (same_column_refl q w) at (size-taken id ts x (b.ids id) e q w) in
      let d : IsDense (n + 1) f = rw more at (b.dense q w) in
      record {
        here = take-IsGapped n x.rank f g d here;
        fits = omega (arith, taken-le (n + 1) x.rank f g d here);
        elsewhere = λ p v a k. ground (
          arith,
          rw a at (cards-taken id ts x (b.ids id) e p v k),
          rw a at (size-taken id ts x (b.ids id) e p v),
          b.dense p v k,
        );
      }

  -- What comes off the board and then closes its gap, or is put in a gap.
  pub drop-HasGap :
      (id : ℕ) (q : ℕ) (w : TaskStatus) (r : ℕ) (ts : List (Task Fields))
      → HasGap q w r (is_other (some id)) ts
      → HasGap q w r all (filter (λ t. not (has_id id t)) ts)
  drop-HasGap id q w r ts g =
      let size' = λ (p : ℕ) (v : TaskStatus). count-dropped id _ _ ts (without_any p v id) in
      let cards' = λ (p : ℕ) (v : TaskStatus) (k : ℕ). count-dropped id _ _ ts (without p v id k) in
      record {
        here = λ k. rw (size' q w, cards' q w k) (g.here k);
        fits = rw (size' q w) g.fits;
        elsewhere = λ p v a k. rw (size' p v, cards' p v k) (g.elsewhere p v a k);
      }

  -- The other cards keep a gap for one card, and the board has that card besides.
  fill-AllDense :
      (q : ℕ) (w : TaskStatus) (r : ℕ) (keep : ℕ → Bool) (us ts : List (Task Fields))
      → HasGap q w r keep us
      → ((p : ℕ) (v : TaskStatus) (k : ℕ)
          → cards p v all ts k
            ≡ cards p v keep us k + (if same_column p v q w && k == r then 1 else 0))
      → ((p : ℕ) (v : TaskStatus)
          → size p v all ts ≡ size p v keep us + (if same_column p v q w then 1 else 0))
      → AllDense all ts
  fill-AllDense q w r keep us ts g c n p v k = elim (Bool-cases (same_column p v q w)) [
    | inl e ↦
        let (ep, ev) = same_column-eq p v q w e in
        let filled : (i : ℕ)
            → cards q w all ts i ≡ cards q w keep us i + (if i == r then 1 else 0) =
          λ i. rw (same_column_refl q w) at (c q w i) in
        let more : size q w all ts ≡ size q w keep us + 1 = rw (same_column_refl q w) at (n q w) in
        rw (ep, ev, more)
          (put-IsDense (size q w keep us) r (cards q w keep us) (cards q w all ts) g.fits g.here
            filled k)
    | inr e ↦ ground (arith, rw e at (c p v k), rw e at (n p v), g.elsewhere p v e k)
  ]

  pub place-AllDense :
      (id : ℕ) (q : ℕ) (w : TaskStatus) (r : ℕ) (patch : Fields → Fields) (ts : List (Task Fields))
      (x : Task Fields)
      → ((i : ℕ) → count (has_id i) ts ≤ 1)
      → find (has_id id) ts ≡ some x
      → x.project_id ≡ q
      → HasGap q w r (is_other (some id)) ts
      → AllDense all (map (λ t. if has_id id t then place w r patch t else t) ts)
  place-AllDense id q w r patch ts x u e eq g =
      fill-AllDense q w r (is_other (some id)) ts _ g
        (λ p v k.
          rw (← eq, ← standing p v (place w r patch x) k)
            (count-placed id (place w r patch) _ _ ts x (without p v id k) (u id) e))
        (λ p v.
          rw (← eq, ← standing_any p v (place w r patch x))
            (count-placed id (place w r patch) _ _ ts x (without_any p v id) (u id) e))

  pub add-AllDense :
      (ts : List (Task Fields)) (x : Task Fields)
      → HasGap x.project_id x.status x.rank all ts
      → AllDense all (ts ++ x ∷ [])
  add-AllDense ts x g =
      fill-AllDense x.project_id x.status x.rank all ts _ g
        (λ p v k.
          rw (← standing p v x k)
            (omega (arith, count-append (λ t. kept_in p v all t && t.rank == k) ts (x ∷ []))))
        (λ p v.
          rw (← standing_any p v x) (omega (arith, count-append (kept_in p v all) ts (x ∷ []))))
