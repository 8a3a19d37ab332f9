-- ===== src/DiscoveryBlocks/Writes.antt =====
-- What a write does to what holds of the rows and of the pending calls.
use transcendence.Prelude.{
  ℕ, ◌≤◌, ◌≡◌, refl, sym, ap, ◌∙◌, inl, inr, Bool, true, false, not, List, [], ◌∷◌, ◌++◌, map,
  arith, ◌==◌, if◌then◌else◌, Bool-cases, length, filter, any, All, All-append, All-mono,
  any-append,
}
use transcendence.DiscoveryBlocks.{
  DiscoveryBlock, DiscoveryBlockItem, UpdateDiscoveryBlockItemDto, compute_discovery_block_status,
  is_item, of_block, patched, max_items_per_discovery_block,
}
use transcendence.DiscoveryBlocks.Machine.{Pending, names, written_for}
use transcendence.DiscoveryBlocks.Sound.{IsGuarded, IsDerived, IsSound}

module _ {B : Type 0} where
  All-replace :
      (P Q : B → Type 0) (pre : List B) (c : B) (c' cs : List B)
      → ((x : B) → P x → Q x)
      → (P c → All Q c')
      → All P (pre ++ c ∷ cs)
      → All Q (pre ++ (c' ++ cs))
  All-replace P Q [] c c' cs k here (h, hs) = All-append Q c' cs (here h) (All-mono k cs hs)
  All-replace P Q (x ∷ pre) c c' cs k here (h, hs) = (k x h, All-replace P Q pre c c' cs k here hs)

  any-replace :
      (p : B → Bool) (pre : List B) (c : B) (c' cs : List B)
      → any p c' ≡ p c
      → any p (pre ++ (c' ++ cs)) ≡ any p (pre ++ c ∷ cs)
  any-replace p [] c c' cs e = rw (any-append p c' cs, e)
  any-replace p (x ∷ pre) c c' cs e = rw (any-replace p pre c c' cs e)

  any_there :
      (p : B → Bool) (pre c' cs : List B) → any p c' ≡ true → any p (pre ++ (c' ++ cs)) ≡ true
  any_there p [] c' cs e = rw (any-append p c' cs, e)
  any_there p (x ∷ pre) c' cs e = ground (arith, any_there p pre c' cs e)

-- A patch of the items under one id, all of them of the block.
pub other_items_patched :
    (id β b : ℕ) (dto : UpdateDiscoveryBlockItemDto) (is : List DiscoveryBlockItem)
    → All (λ it. (id == it.id) ≡ true → of_block β it ≡ true) is
    → (β == b) ≡ false
    → filter (of_block b) (map (λ i. if is_item id i then patched dto i else i) is)
      ≡ filter (of_block b) is
other_items_patched id β b dto [] h other = refl
other_items_patched id β b dto (i ∷ is) (h, hs) other =
    ground (arith, other_items_patched id β b dto is hs, other, h)

pub other_items_left :
    (id β b : ℕ) (is : List DiscoveryBlockItem)
    → All (λ it. (id == it.id) ≡ true → of_block β it ≡ true) is
    → (β == b) ≡ false
    → filter (of_block b) (filter (λ i. not (is_item id i)) is) ≡ filter (of_block b) is
other_items_left id β b [] h other = refl
other_items_left id β b (i ∷ is) (h, hs) other =
    ground (arith, other_items_left id β b is hs, other, h)

-- A new item, which no pending call is about.
pub guards-append :
    (is : List DiscoveryBlockItem) (x : DiscoveryBlockItem) (cs : List Pending)
    → All (IsGuarded is) cs
    → any (λ c. names x.id c.call) cs ≡ false
    → All (IsGuarded (is ++ x ∷ [])) cs
guards-append is x [] g e = tt
guards-append is x (c ∷ cs) (g, gs) e =
    let not_this : names x.id c.call ≡ false = ground (arith, e) in
    let later : any (λ c. names x.id c.call) cs ≡ false = ground (arith, e) in
    (All-append _ is (x ∷ []) g ((λ this. cc), tt), guards-append is x cs gs later)

abbrev pub as_written : Pending → Pending
as_written c = record c { written = true }

status_by_write :
    (pre : List Pending) (c : Pending) (cs : List Pending) (is is' : List DiscoveryBlockItem)
    → c.written ≡ false
    → ((b : ℕ) → (c.block == b) ≡ false → filter (of_block b) is' ≡ filter (of_block b) is)
    → (b : DiscoveryBlock) → IsDerived is (pre ++ c ∷ cs) b
    → IsDerived is' (pre ++ (as_written c ∷ cs)) b
status_by_write pre c cs is is' w same b k idle = elim (Bool-cases (c.block == b.id)) [
  | inl here ↦
      let due = any_there (written_for b.id) pre (as_written c ∷ []) cs (rw here refl) in cc
  | inr other ↦
      let kept = any-replace (written_for b.id) pre c (as_written c ∷ []) cs (rw (other, w) refl) in
      k (sym kept ∙ idle) ∙ ap compute_discovery_block_status (sym (same b.id other))
]

-- A write: only items of the call's block change.
pub written_lem :
    (pre : List Pending) (c : Pending) (cs : List Pending) (bs : List DiscoveryBlock)
    (is is' : List DiscoveryBlockItem)
    → IsSound bs is (pre ++ c ∷ cs)
    → c.written ≡ false
    → ((i : ℕ) → length (filter (is_item i) is') ≤ 1)
    → ((b : ℕ) → length (filter (of_block b) is') ≤ max_items_per_discovery_block)
    → All (IsGuarded is') (pre ++ c ∷ cs)
    → ((b : ℕ) → (c.block == b) ≡ false → filter (of_block b) is' ≡ filter (of_block b) is)
    → IsSound bs is' (pre ++ (as_written c ∷ cs))
written_lem pre c cs bs is is' h w one fit guards same = record {
  block_ids = h.block_ids;
  item_ids = one;
  blocks_fit = h.blocks_fit;
  items_fit = fit;
  guarded =
      All-replace (IsGuarded is') (IsGuarded is') pre c (as_written c ∷ []) cs (λ x g. g)
        (λ g. (g, tt)) guards;
  derived = All-mono (status_by_write pre c cs is is' w same) bs h.derived;
}

-- A call that ends without having written.
pub ended_lem :
    (pre : List Pending) (c : Pending) (cs : List Pending) (bs : List DiscoveryBlock)
    (is : List DiscoveryBlockItem)
    → IsSound bs is (pre ++ c ∷ cs)
    → c.written ≡ false
    → IsSound bs is (pre ++ cs)
ended_lem pre c cs bs is h w = record {
  block_ids = h.block_ids;
  item_ids = h.item_ids;
  blocks_fit = h.blocks_fit;
  items_fit = h.items_fit;
  guarded = All-replace (IsGuarded is) (IsGuarded is) pre c [] cs (λ x g. g) (λ g. tt) h.guarded;
  derived =
      All-mono (λ b k idle. k (sym (any-replace (written_for b.id) pre c [] cs (rw w refl)) ∙ idle))
        bs h.derived;
}
