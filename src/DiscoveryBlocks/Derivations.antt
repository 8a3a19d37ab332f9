-- ===== src/DiscoveryBlocks/Derivations.antt =====
-- Which calls are to derive a block's status, and what a derivation leaves.
use transcendence.Prelude.{
  ℕ, ◌≡◌, refl, sym, ap, ◌∙◌, inl, inr, false, not, List, [], ◌∷◌, ◌++◌, map, arith, ◌==◌,
  if◌then◌else◌, Bool-cases, filter, any, All, All-mono,
}
use transcendence.DiscoveryBlocks.{
  DiscoveryBlock, DiscoveryBlockItem, DiscoveryBlockStatus, has_id, of_project,
}
use transcendence.DiscoveryBlocks.Rows.{All-map, filter-map_same, status_of}
use transcendence.DiscoveryBlocks.Machine.{Pending, written_for}
use transcendence.DiscoveryBlocks.Sound.{IsGuarded, IsDerived, IsSound}

-- A call that is counted otherwise: the list of calls is another, but what is to be derived is not.
pub recounted_lem :
    (cs cs' : List Pending) (bs : List DiscoveryBlock) (is : List DiscoveryBlockItem)
    → IsSound bs is cs
    → All (IsGuarded is) cs'
    → ((b : ℕ) → any (written_for b) cs' ≡ any (written_for b) cs)
    → IsSound bs is cs'
recounted_lem cs cs' bs is h guards same = record {
  block_ids = h.block_ids;
  item_ids = h.item_ids;
  blocks_fit = h.blocks_fit;
  items_fit = h.items_fit;
  guarded = guards;
  derived = All-mono (λ b k idle. k (sym (same b.id) ∙ idle)) bs h.derived;
}

-- A derivation of the status of a block, after which only the block has fewer calls to derive it.
pub recalculated_lem :
    (β : ℕ) (cs cs' : List Pending) (bs : List DiscoveryBlock) (is : List DiscoveryBlockItem)
    (st : DiscoveryBlockStatus)
    → IsSound bs is cs
    → All (IsGuarded is) cs'
    → ((b : ℕ) → (β == b) ≡ false → any (written_for b) cs' ≡ any (written_for b) cs)
    → st ≡ status_of β is
    → IsSound (map (λ b. if has_id β b then record b { status = st } else b) bs) is cs'
recalculated_lem β cs cs' bs is st h guards same e = record {
  block_ids = λ i. ground (
    arith,
    h.block_ids i,
    filter-map_same (has_id i) (λ b. if has_id β b then record b { status = st } else b) bs
        (λ b. ground arith),
  );
  item_ids = h.item_ids;
  blocks_fit = λ q. ground (
    arith,
    h.blocks_fit q,
    filter-map_same (of_project q) (λ b. if has_id β b then record b { status = st } else b) bs
        (λ b. ground arith),
  );
  items_fit = h.items_fit;
  guarded = guards;
  derived =
      All-map (IsDerived is cs) (IsDerived is cs') _ bs
        (λ b k. elim (Bool-cases (has_id β b)) [
          | inl here ↦
              let its : β ≡ b.id = ground (arith, here) in
              rw here λ idle. e ∙ ap (λ x. status_of x is) its
          | inr other ↦
              let not_its : (β == b.id) ≡ false = ground (arith, other) in
              rw other λ idle. k (sym (same b.id not_its) ∙ idle)
        ])
        h.derived;
}

-- What is left of the abandoned calls when a block's status is derived.
pub others_abandoned :
    (β b : ℕ) (ab : List Pending)
    → (β == b) ≡ false
    → any (written_for b) (filter (λ a. not (a.block == β)) ab) ≡ any (written_for b) ab
others_abandoned β b [] other = refl
others_abandoned β b (a ∷ ab) other = ground (arith, others_abandoned β b ab other, other)

pub All-parts :
    {B : Type 0} (P : B → Type 0) (xs ys : List B) → All P (xs ++ ys) → All P xs × All P ys
All-parts P [] ys h = (tt, h)
All-parts P (x ∷ xs) ys (h, hs) = let (a, b) = All-parts P xs ys hs in ((h, a), b)
