-- ===== src/DiscoveryBlocks/Rows.antt =====
-- Rows of blocks and of items, and the status that items give.
use transcendence.Prelude.{
  ℕ, ◌≤◌, ◌≡◌, refl, sym, ap, ◌∙◌, inl, inr, Bool, true, false, List, [], ◌∷◌, ◌++◌, map, arith,
  if◌then◌else◌, Bool-cases, length, filter, any, All,
}
use mathlib.Core.List.{Perm, Permᴰ}
use mathlib.Core.Logic.{∥∥₁_elim}
use transcendence.DiscoveryBlocks.{
  DiscoveryBlockItem, DiscoveryBlockStatus, compute_discovery_block_status, of_block,
}

module _ {B : Type 0} where
  count-Permᴰ :
      (p : B → Bool) {xs ys : List B} → Permᴰ xs ys → length (filter p xs) ≡ length (filter p ys)
  count-Permᴰ p Permᴰ.nil = refl
  count-Permᴰ p (Permᴰ.cons {a} {b} e d) = ground (arith, e, count-Permᴰ p d)
  count-Permᴰ p (Permᴰ.swap {a} {b} {a'} {b'} e e') = ground (arith, e, e')
  count-Permᴰ p (Permᴰ.trans d d') = count-Permᴰ p d ∙ count-Permᴰ p d'

  pub count-Perm :
      (p : B → Bool) (xs ys : List B) → Perm xs ys → length (filter p xs) ≡ length (filter p ys)
  count-Perm p xs ys d = ∥∥₁_elim d (hlevel) (count-Permᴰ p)

  filter_all : (xs : List B) → filter (λ x. true) xs ≡ xs
  filter_all [] = refl
  filter_all (x ∷ xs) = ap (λ ys. x ∷ ys) (filter_all xs)

  pub length-Perm : (xs ys : List B) → Perm xs ys → length xs ≡ length ys
  length-Perm xs ys d =
      ap length (sym (filter_all xs)) ∙ count-Perm (λ x. true) xs ys d ∙ ap length (filter_all ys)

  pub All-filter {κ} :
      (P : B → Type κ) (q : B → Bool) (xs : List B)
      → All P xs
      → All (λ x. P x × (q x ≡ true)) (filter q xs)
  All-filter P q [] h = tt
  All-filter P q (x ∷ xs) (h, hs) = elim (Bool-cases (q x)) [
    | inl e ↦ rw e ((h, e), All-filter P q xs hs)
    | inr e ↦ rw e (All-filter P q xs hs)
  ]

  pub All-map {κ} :
      (P Q : B → Type κ) (f : B → B) (xs : List B)
      → ((x : B) → P x → Q (f x))
      → All P xs
      → All Q (map f xs)
  All-map P Q f [] k h = tt
  All-map P Q f (x ∷ xs) k (h, hs) = (k x h, All-map P Q f xs k hs)

  pub filter-map_same :
      (p : B → Bool) (f : B → B) (xs : List B)
      → ((x : B) → p (f x) ≡ p x)
      → length (filter p (map f xs)) ≡ length (filter p xs)
  filter-map_same p f [] k = refl
  filter-map_same p f (x ∷ xs) k = ground (arith, k x, filter-map_same p f xs k)

  pub filter-filter_le :
      (p q : B → Bool) (xs : List B) → length (filter p (filter q xs)) ≤ length (filter p xs)
  filter-filter_le p q [] = omega arith
  filter-filter_le p q (x ∷ xs) = ground (arith, filter-filter_le p q xs)

  pub filter-append :
      (p : B → Bool) (xs : List B) (y : B)
      → filter p (xs ++ y ∷ []) ≡ filter p xs ++ (if p y then y ∷ [] else [])
  filter-append p [] y = refl
  filter-append p (x ∷ xs) y = ground (arith, filter-append p xs y)

  pub filter-none : (p : B → Bool) (xs : List B) → any p xs ≡ false → filter p xs ≡ []
  filter-none p [] e = refl
  filter-none p (x ∷ xs) e = ground (arith, filter-none p xs)

-- What the code makes of the items of a block.
abbrev pub status_of : ℕ → List DiscoveryBlockItem → DiscoveryBlockStatus
status_of b is = compute_discovery_block_status (filter (of_block b) is)

pub compute-Perm :
    (xs ys : List DiscoveryBlockItem)
    → Perm xs ys
    → compute_discovery_block_status xs ≡ compute_discovery_block_status ys
unfolding compute_discovery_block_status
compute-Perm xs ys d = rw (length-Perm xs ys d, count-Perm (λ i. i.is_checked) xs ys d)
