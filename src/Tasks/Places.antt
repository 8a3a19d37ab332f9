-- ===== src/Tasks/Places.antt =====
-- A column as a function: how many cards stand at each rank.
use transcendence.Prelude.{ℕ, ◌+◌, ◌-◌, ◌≤◌, ◌<◌, ◌≡◌, arith, ltb, leb, ◌==◌, if◌then◌else◌}

-- One card at each rank below `n`.
abbrev pub IsDense : ℕ → (ℕ → ℕ) → Type 0
IsDense n f = (k : ℕ) → f k ≡ (if ltb k n then 1 else 0)

-- One card at each rank up to `n`, but none at `r`.
abbrev pub IsGapped : ℕ → ℕ → (ℕ → ℕ) → Type 0
IsGapped n r f = (k : ℕ) → f k ≡ (if k == r then 0 else if leb k n then 1 else 0)

abbrev pub closed : ℕ → (ℕ → ℕ) → ℕ → ℕ
closed r f k = if ltb k r then f k else if k == r then f k + f (k + 1) else f (k + 1)

abbrev pub opened : ℕ → (ℕ → ℕ) → ℕ → ℕ
opened r f k = if ltb k r then f k else if k == r then 0 else f (k - 1)

pub closed-IsDense : (n r : ℕ) (f : ℕ → ℕ) → r ≤ n → IsGapped n r f → IsDense n (closed r f)
closed-IsDense n r f h d k = ground (arith, d k, d (k + 1))

pub opened-IsGapped : (n r : ℕ) (f : ℕ → ℕ) → r ≤ n → IsDense n f → IsGapped n r (opened r f)
opened-IsGapped n r f h d k = ground (arith, d k, d (k - 1))

pub put-IsDense :
    (n r : ℕ) (f g : ℕ → ℕ)
    → r ≤ n
    → IsGapped n r f
    → ((k : ℕ) → g k ≡ f k + (if k == r then 1 else 0))
    → IsDense (n + 1) g
put-IsDense n r f g h d e k = ground (arith, d k, e k)

pub take-IsGapped :
    (n r : ℕ) (f g : ℕ → ℕ)
    → IsDense (n + 1) f
    → ((k : ℕ) → f k ≡ g k + (if k == r then 1 else 0))
    → IsGapped n r g
take-IsGapped n r f g d e k = ground (arith, d k, e k)

pub taken-le :
    (n r : ℕ) (f g : ℕ → ℕ)
    → IsDense n f
    → ((k : ℕ) → f k ≡ g k + (if k == r then 1 else 0))
    → r < n
taken-le n r f g d e = ground (arith, d r, e r)
