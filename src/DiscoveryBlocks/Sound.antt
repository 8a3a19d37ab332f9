-- ===== src/DiscoveryBlocks/Sound.antt =====
-- What holds of the rows and of the pending calls at any time.
use transcendence.Prelude.{
  filter-others, ℕ, ◌+◌, ◌≤◌, ◌<◌, String, ◌≡◌, sym, ap, subst, ◌∙◌, inl, inr, Bool, true, false,
  not, List, [], ◌∷◌, ◌++◌, map, arith, if◌then◌else◌, Bool-cases, length, filter, any, All,
  length-append, All-append, All-mono,
}
use transcendence.DiscoveryBlocks.{
  DiscoveryBlock, DiscoveryBlockItem, not_started, compute_discovery_block_status, has_id, is_item,
  of_block, of_project, max_discovery_blocks_per_project, max_items_per_discovery_block,
}
use transcendence.DiscoveryBlocks.Rows.{
  All-filter, All-map, filter-map_same, filter-filter_le, filter-append, filter-none, status_of,
}
use transcendence.DiscoveryBlocks.Machine.{Pending, names, written_for}

-- The call's item, where it exists, is of the block that the call is about.
abbrev pub IsGuarded : List DiscoveryBlockItem → Pending → Type 0
IsGuarded is c = All (λ it. names it.id c.call ≡ true → of_block c.block it ≡ true) is

-- The block's status is what its items say, unless a call is still to derive it.
abbrev pub IsDerived : List DiscoveryBlockItem → List Pending → DiscoveryBlock → Type 0
IsDerived is cs b = any (written_for b.id) cs ≡ false → b.status ≡ status_of b.id is

pub record IsSound (bs : List DiscoveryBlock) (is : List DiscoveryBlockItem) (cs : List Pending)
    : Type 0 where
  pub block_ids : (i : ℕ) → length (filter (has_id i) bs) ≤ 1
  pub item_ids : (i : ℕ) → length (filter (is_item i) is) ≤ 1
  pub blocks_fit : (p : ℕ) → length (filter (of_project p) bs) ≤ max_discovery_blocks_per_project
  pub items_fit : (b : ℕ) → length (filter (of_block b) is) ≤ max_items_per_discovery_block
  pub guarded : All (IsGuarded is) cs
  pub derived : All (IsDerived is cs) bs

count_one :
    {B : Type 0} (p : B → Bool) (xs : List B) (y : B)
    → length (filter p (xs ++ y ∷ [])) ≡ length (filter p xs) + (if p y then 1 else 0)
count_one p xs y =
    rw (filter-append p xs y, length-append (filter p xs) (if p y then y ∷ [] else []))
      (ground arith)

pub fits-append :
    {B : Type 0} (p : B → Bool) (xs : List B) (y : B) (n : ℕ)
    → length (filter p xs) ≤ n
    → (p y ≡ true → length (filter p xs) < n)
    → length (filter p (xs ++ y ∷ [])) ≤ n
fits-append p xs y n h room = elim (Bool-cases (p y)) [
  | inl e ↦ ground (arith, count_one p xs y, e, room e)
  | inr e ↦ ground (arith, count_one p xs y, e, h)
]

pub none_yet :
    {B : Type 0} (p : B → Bool) (xs : List B) → any p xs ≡ false → length (filter p xs) < 1
none_yet p xs e = rw (filter-none p xs e) (omega arith)

pub block_added :
    (id p : ℕ) (content : String) (bs : List DiscoveryBlock) (is : List DiscoveryBlockItem)
    (cs : List Pending)
    → IsSound bs is cs
    → any (has_id id) bs ≡ false
    → any (of_block id) is ≡ false
    → length (filter (of_project p) bs) < max_discovery_blocks_per_project
    → IsSound
        (bs ++ record { id = id; project_id = p; content = content; status = not_started } ∷ [])
        is
        cs
unfolding compute_discovery_block_status
block_added id p content bs is cs h new unused room =
    let b : DiscoveryBlock = record {
      id = id;
      project_id = p;
      content = content;
      status = not_started;
    } in
    record {
      block_ids = λ i. fits-append (has_id i) bs b 1 (h.block_ids i) λ e.
          let same : id ≡ i = ground (arith, e) in
          subst (λ j. length (filter (has_id j) bs) < 1) same (none_yet (has_id id) bs new);
      item_ids = h.item_ids;
      blocks_fit = λ q.
          fits-append (of_project q) bs b max_discovery_blocks_per_project (h.blocks_fit q) λ e.
            let same : p ≡ q = ground (arith, e) in
            subst (λ r. length (filter (of_project r) bs) < max_discovery_blocks_per_project) same
              room;
      items_fit = h.items_fit;
      guarded = h.guarded;
      derived =
          All-append (IsDerived is cs) bs (b ∷ []) h.derived
            ((λ _. rw (filter-none (of_block id) is unused)), tt);
    }

pub block_changed :
    (id : ℕ) (patch : String → String) (bs : List DiscoveryBlock) (is : List DiscoveryBlockItem)
    (cs : List Pending)
    → IsSound bs is cs
    → IsSound
        (map (λ b. if has_id id b then record b { content = patch b.content } else b) bs)
        is
        cs
block_changed id patch bs is cs h = record {
  block_ids = λ i. ground (
    arith,
    h.block_ids i,
    filter-map_same (has_id i)
        (λ b. if has_id id b then record b { content = patch b.content } else b) bs
        (λ b. ground arith),
  );
  item_ids = h.item_ids;
  blocks_fit = λ q. ground (
    arith,
    h.blocks_fit q,
    filter-map_same (of_project q)
        (λ b. if has_id id b then record b { content = patch b.content } else b) bs
        (λ b. ground arith),
  );
  items_fit = h.items_fit;
  guarded = h.guarded;
  derived =
      All-map (IsDerived is cs) (IsDerived is cs) _ bs
        (λ b k. elim (Bool-cases (has_id id b)) [ inl e ↦ rw e k | inr e ↦ rw e k ]) h.derived;
}

pub block_removed :
    (id : ℕ) (bs : List DiscoveryBlock) (is : List DiscoveryBlockItem) (cs : List Pending)
    → IsSound bs is cs
    → IsSound (filter (λ b. not (has_id id b)) bs) (filter (λ i. not (of_block id i)) is) cs
block_removed id bs is cs h = record {
  block_ids =
      λ i. omega (arith, h.block_ids i, filter-filter_le (has_id i) (λ b. not (has_id id b)) bs);
  item_ids =
      λ i. omega (arith, h.item_ids i, filter-filter_le (is_item i) (λ b. not (of_block id b)) is);
  blocks_fit = λ p.
      omega (arith, h.blocks_fit p, filter-filter_le (of_project p) (λ b. not (has_id id b)) bs);
  items_fit = λ b.
      omega (arith, h.items_fit b, filter-filter_le (of_block b) (λ i. not (of_block id i)) is);
  guarded =
      All-mono (λ c k. All-mono (λ it w. w.0) _ (All-filter _ (λ i. not (of_block id i)) is k)) cs
        h.guarded;
  derived =
      All-mono
        (λ b (k, other) idle.
          k idle
          ∙ ap compute_discovery_block_status (
              sym
                (filter-others (of_block b.id) (of_block id) is λ it e. ground (arith, other, e))))
        _ (All-filter (IsDerived is cs) (λ b. not (has_id id b)) bs h.derived);
}
