-- ===== src/Tasks/Counts.antt =====
-- What the shifts of ranks do to the number of cards at each rank of each column. The cards counted
-- are those whose id passes a test `keep`.
use transcendence.Prelude.{
  ℕ, ◌+◌, ◌-◌, ◌≤◌, ◌≡◌, refl, ap, inl, inr, Bool, true, false, not, ◌&&◌, Option, some, List, [],
  ◌∷◌, ◌++◌, map, arith, ltb, leb, ◌==◌, if◌then◌else◌, Bool-cases, length, filter, find,
}
use mathlib.Core.Option
use transcendence.Tasks.{TaskStatus, Task, status_index, in_column, has_id, set_rank}
use transcendence.Tasks.Places.{closed, opened}

abbrev pub same_column : ℕ → TaskStatus → ℕ → TaskStatus → Bool
same_column p v q w = p == q && status_index v == status_index w

abbrev card : Bool → ℕ → ℕ → ℕ
card b x k = if b && x == k then 1 else 0

card-down :
    (c b : Bool) (x r k : ℕ) (f : ℕ → ℕ)
    → card (c && b) (if c && ltb r x then x - 1 else x) k + closed r f k
      ≡ closed r (λ i. card (c && b) x i + f i) k
card-down true true x r k f = ground arith
card-down true false x r k f = ground arith
card-down false b x r k f = ground arith

card-up :
    (c b : Bool) (x r k : ℕ) (f : ℕ → ℕ)
    → card (c && b) (if c && leb r x && b then x + 1 else x) k + opened r f k
      ≡ opened r (λ i. card (c && b) x i + f i) k
card-up true true x r k f = ground arith
card-up true false x r k f = ground arith
card-up false b x r k f = ground arith

module _ {Fields : Type 0} where
  abbrev pub count : (Task Fields → Bool) → List (Task Fields) → ℕ
  count p [] = 0
  count p (t ∷ ts) = (if p t then 1 else 0) + count p ts

  abbrev pub kept_in : ℕ → TaskStatus → (ℕ → Bool) → Task Fields → Bool
  kept_in p v keep t = in_column p v t && keep t.id

  abbrev pub cards : ℕ → TaskStatus → (ℕ → Bool) → List (Task Fields) → ℕ → ℕ
  cards p v keep ts k = count (λ t. kept_in p v keep t && t.rank == k) ts

  pub length-filter :
      (p : Task Fields → Bool) (ts : List (Task Fields)) → length (filter p ts) ≡ count p ts
  length-filter p [] = refl
  length-filter p (t ∷ ts) = ground (arith, length-filter p ts)

  abbrev pub shift_down : ℕ → TaskStatus → ℕ → Task Fields → Task Fields
  shift_down p v r t = if in_column p v t && ltb r t.rank then set_rank (λ x. x - 1) t else t

  abbrev pub shift_up : ℕ → TaskStatus → ℕ → (ℕ → Bool) → Task Fields → Task Fields
  shift_up p v r keep t =
      if in_column p v t && leb r t.rank && keep t.id then set_rank (λ x. x + 1) t else t

  pub if-rank :
      (b : Bool) (g : ℕ → ℕ) (t : Task Fields)
      → (if b then set_rank g t else t).rank ≡ (if b then g t.rank else t.rank)
  if-rank true g t = refl
  if-rank false g t = refl

  if-id : (b : Bool) (g : ℕ → ℕ) (t : Task Fields) → (if b then set_rank g t else t).id ≡ t.id
  if-id true g t = refl
  if-id false g t = refl

  if-project_id :
      (b : Bool) (g : ℕ → ℕ) (t : Task Fields)
      → (if b then set_rank g t else t).project_id ≡ t.project_id
  if-project_id true g t = refl
  if-project_id false g t = refl

  if-status :
      (b : Bool) (g : ℕ → ℕ) (t : Task Fields) → (if b then set_rank g t else t).status ≡ t.status
  if-status true g t = refl
  if-status false g t = refl

  if-fields :
      (b : Bool) (g : ℕ → ℕ) (t : Task Fields) → (if b then set_rank g t else t).fields ≡ t.fields
  if-fields true g t = refl
  if-fields false g t = refl

  -- A change of ranks only.
  pub record Shifts (f : Task Fields → Task Fields) : Type 0 where
    pub id : (t : Task Fields) → (f t).id ≡ t.id
    pub project_id : (t : Task Fields) → (f t).project_id ≡ t.project_id
    pub status : (t : Task Fields) → (f t).status ≡ t.status
    pub fields : (t : Task Fields) → (f t).fields ≡ t.fields

  pub if-Shifts :
      (test : Task Fields → Bool) (g : ℕ → ℕ) → Shifts (λ t. if test t then set_rank g t else t)
  if-Shifts test g = record {
    id = λ t. if-id (test t) g t;
    project_id = λ t. if-project_id (test t) g t;
    status = λ t. if-status (test t) g t;
    fields = λ t. if-fields (test t) g t;
  }

  pub shift_down-Shifts : (p : ℕ) (v : TaskStatus) (r : ℕ) → Shifts (shift_down p v r)
  shift_down-Shifts p v r = if-Shifts (λ t. in_column p v t && ltb r t.rank) (λ x. x - 1)

  pub shift_up-Shifts :
      (p : ℕ) (v : TaskStatus) (r : ℕ) (keep : ℕ → Bool) → Shifts (shift_up p v r keep)
  shift_up-Shifts p v r keep =
      if-Shifts (λ t. in_column p v t && leb r t.rank && keep t.id) (λ x. x + 1)

  pub kept_in-Shifts :
      (f : Task Fields → Task Fields) (sh : Shifts f) (p : ℕ) (v : TaskStatus) (keep : ℕ → Bool)
      (t : Task Fields)
      → kept_in p v keep (f t) ≡ kept_in p v keep t
  kept_in-Shifts f sh p v keep t = rw (sh.id t, sh.project_id t, sh.status t)

  pub cards-shift_down :
      (p : ℕ) (v : TaskStatus) (keep : ℕ → Bool) (r k : ℕ) (ts : List (Task Fields))
      → cards p v keep (map (shift_down p v r) ts) k ≡ closed r (cards p v keep ts) k
  cards-shift_down p v keep r k [] = ground arith
  cards-shift_down p v keep r k (t ∷ ts) =
      rw
        (
          kept_in-Shifts (shift_down p v r) (if-Shifts _ _) p v keep t,
          if-rank (in_column p v t && ltb r t.rank) (λ x. x - 1) t,
          cards-shift_down p v keep r k ts,
        )
        (card-down (in_column p v t) (keep t.id) t.rank r k (cards p v keep ts))

  pub cards-shift_up :
      (p : ℕ) (v : TaskStatus) (keep : ℕ → Bool) (r k : ℕ) (ts : List (Task Fields))
      → cards p v keep (map (shift_up p v r keep) ts) k ≡ opened r (cards p v keep ts) k
  cards-shift_up p v keep r k [] = ground arith
  cards-shift_up p v keep r k (t ∷ ts) =
      rw
        (
          kept_in-Shifts (shift_up p v r keep) (if-Shifts _ _) p v keep t,
          if-rank (in_column p v t && leb r t.rank && keep t.id) (λ x. x + 1) t,
          cards-shift_up p v keep r k ts,
        )
        (card-up (in_column p v t) (keep t.id) t.rank r k (cards p v keep ts))

  pub cards-apart :
      (p : ℕ) (v : TaskStatus) (keep : ℕ → Bool) (test : Task Fields → Bool) (g : ℕ → ℕ) (k : ℕ)
      (ts : List (Task Fields))
      → ((t : Task Fields) → in_column p v t ≡ true → test t ≡ false)
      → cards p v keep (map (λ t. if test t then set_rank g t else t) ts) k ≡ cards p v keep ts k
  cards-apart p v keep test g k [] h = refl
  cards-apart p v keep test g k (t ∷ ts) h = elim (Bool-cases (in_column p v t)) [
    | inl e ↦ rw (h t e, cards-apart p v keep test g k ts h)
    | inr e ↦
        rw (kept_in-Shifts _ (if-Shifts test g) p v keep t, e, cards-apart p v keep test g k ts h)
  ]

  abbrev pub size : ℕ → TaskStatus → (ℕ → Bool) → List (Task Fields) → ℕ
  size p v keep ts = count (kept_in p v keep) ts

  pub size-Shifts :
      (f : Task Fields → Task Fields) (sh : Shifts f) (p : ℕ) (v : TaskStatus) (keep : ℕ → Bool)
      (ts : List (Task Fields))
      → size p v keep (map f ts) ≡ size p v keep ts
  size-Shifts f sh p v keep [] = refl
  size-Shifts f sh p v keep (t ∷ ts) =
      rw (kept_in-Shifts f sh p v keep t, size-Shifts f sh p v keep ts)

  pub ids-Shifts :
      (f : Task Fields → Task Fields) (sh : Shifts f) (id : ℕ) (ts : List (Task Fields))
      → count (has_id id) (map f ts) ≡ count (has_id id) ts
  ids-Shifts f sh id [] = refl
  ids-Shifts f sh id (t ∷ ts) = rw (sh.id t, ids-Shifts f sh id ts)

  -- The task with an id, found again after a change of ranks.
  pub find-Shifts :
      (f : Task Fields → Task Fields) (sh : Shifts f) (id : ℕ) (ts : List (Task Fields))
      (x : Task Fields)
      → find (has_id id) ts ≡ some x
      → find (has_id id) (map f ts) ≡ some (f x)
  find-Shifts f sh id [] x e = cc
  find-Shifts f sh id (t ∷ ts) x e =
      let same : has_id id (f t) ≡ has_id id t = ap (λ i. i == id) (sh.id t) in
      elim (Bool-cases (has_id id t)) [
        | inl here ↦
            let e' : Path (Option (Task Fields)) (some t) (some x) = rw here at e in
            rw (same, here) (ap {B = Option (Task Fields)} (Option.map f) e')
        | inr there ↦ rw (same, there) (find-Shifts f sh id ts x (rw there at e))
      ]

  count-absent :
      (id : ℕ) (p q : Task Fields → Bool) (ts : List (Task Fields))
      → ((t : Task Fields) → q t ≡ (p t && not (t.id == id)))
      → count (has_id id) ts ≡ 0
      → count p ts ≡ count q ts
  count-absent id p q [] h e = refl
  count-absent id p q (t ∷ ts) h e = ground (arith, count-absent id p q ts h, h t)

  -- Counting without the task that has an id, and that task by itself.
  pub count-found :
      (id : ℕ) (p q : Task Fields → Bool) (ts : List (Task Fields)) (x : Task Fields)
      → ((t : Task Fields) → q t ≡ (p t && not (t.id == id)))
      → count (has_id id) ts ≤ 1
      → find (has_id id) ts ≡ some x
      → count p ts ≡ count q ts + (if p x then 1 else 0)
  count-found id p q [] x h u e = cc
  count-found id p q (t ∷ ts) x h u e =
      ground (arith, count-found id p q ts x h, h t, count-absent id p q ts h)

  pub count-dropped :
      (id : ℕ) (p q : Task Fields → Bool) (ts : List (Task Fields))
      → ((t : Task Fields) → q t ≡ (p t && not (t.id == id)))
      → count p (filter (λ t. not (has_id id t)) ts) ≡ count q ts
  count-dropped id p q [] h = refl
  count-dropped id p q (t ∷ ts) h = ground (arith, count-dropped id p q ts h, h t)

  placed-absent :
      (id : ℕ) (g : Task Fields → Task Fields) (ts : List (Task Fields))
      → count (has_id id) ts ≡ 0
      → map (λ t. if has_id id t then g t else t) ts ≡ ts
  placed-absent id g [] e = refl
  placed-absent id g (t ∷ ts) e = ground (arith, placed-absent id g ts)

  pub count-placed :
      (id : ℕ) (g : Task Fields → Task Fields) (p q : Task Fields → Bool) (ts : List (Task Fields))
      (x : Task Fields)
      → ((t : Task Fields) → q t ≡ (p t && not (t.id == id)))
      → count (has_id id) ts ≤ 1
      → find (has_id id) ts ≡ some x
      → count p (map (λ t. if has_id id t then g t else t) ts)
        ≡ count q ts + (if p (g x) then 1 else 0)
  count-placed id g p q [] x h u e = cc
  count-placed id g p q (t ∷ ts) x h u e =
      ground
        (arith, count-placed id g p q ts x h, h t, count-absent id p q ts h, placed-absent id g ts)

  pub count-append :
      (p : Task Fields → Bool) (xs ys : List (Task Fields))
      → count p (xs ++ ys) ≡ count p xs + count p ys
  count-append p [] ys = omega arith
  count-append p (x ∷ xs) ys = ground (arith, count-append p xs ys)

  pub find-placed :
      (id i : ℕ) (g : Task Fields → Task Fields) (ts : List (Task Fields)) (x : Task Fields)
      → ((t : Task Fields) → (g t).id ≡ t.id)
      → find (has_id i) ts ≡ some x
      → find (has_id i) (map (λ t. if has_id id t then g t else t) ts)
        ≡ some (if i == id then g x else x)
  find-placed id i g [] x h e = cc
  find-placed id i g (t ∷ ts) x h e = ground (arith, find-placed id i g ts x h, h t)

  pub id_of_found :
      (i : ℕ) (ts : List (Task Fields)) (x : Task Fields) → find (has_id i) ts ≡ some x → x.id ≡ i
  id_of_found i [] x e = cc
  id_of_found i (t ∷ ts) x e = ground (arith, id_of_found i ts x)

  pub count_of_found :
      (i : ℕ) (p : Task Fields → Bool) (ts : List (Task Fields)) (x : Task Fields)
      → find (has_id i) ts ≡ some x
      → p x ≡ true
      → 1 ≤ count p ts
  count_of_found i p [] x e h = cc
  count_of_found i p (t ∷ ts) x e h = ground (arith, count_of_found i p ts x)
