-- ===== src/DiscoveryBlocks/Interleaved.antt =====
-- Each step of a pending call keeps what holds of the rows and of the pending calls.
use transcendence.Prelude.{
  ℕ, ◌<◌, ◌≡◌, refl, subst, inl, inr, Bool, true, false, not, List, [], ◌∷◌, ◌++◌, map, arith, leb,
  ◌==◌, if◌then◌else◌, Bool-cases, Option-cases, length, filter, any, find, All, All-mono,
}
use mathlib.Core.List.{append-nil}
use transcendence.Prisma.{Table}
use transcendence.ProjectMembers.{ProjectMember}
use transcendence.ProjectMembers.Calls.{is_ok}
use transcendence.DiscoveryBlocks.{
  DiscoveryBlock, DiscoveryBlockItem, CreateDiscoveryBlockItemDto, UpdateDiscoveryBlockItemDto,
  Store, compute_discovery_block_status, recalculate_status, has_id, is_item, of_block, patched,
  max_items_per_discovery_block,
}
use transcendence.DiscoveryBlocks.Items.{create_item_transaction, update_item_row, remove_item_row}
use transcendence.DiscoveryBlocks.Rows.{
  All-filter, All-map, filter-map_same, filter-filter_le, filter-append, compute-Perm, status_of,
}
use transcendence.DiscoveryBlocks.Machine.{Pending, names, written_for}
use transcendence.DiscoveryBlocks.Sound.{IsGuarded, IsSound, fits-append, none_yet}
use transcendence.DiscoveryBlocks.Writes.{
  as_written, written_lem, ended_lem, other_items_patched, other_items_left, guards-append,
}
use transcendence.DiscoveryBlocks.Derivations.{recalculated_lem}

map_none :
    (b : ℕ) (f : DiscoveryBlock → DiscoveryBlock) (bs : List DiscoveryBlock)
    → any (has_id b) bs ≡ false
    → map (λ x. if has_id b x then f x else x) bs ≡ bs
map_none b f [] e = refl
map_none b f (x ∷ bs) e = ground (arith, map_none b f bs)

module _ (M : Table ProjectMember) (B : Table DiscoveryBlock) (I : Table DiscoveryBlockItem) where
  -- The rows and the calls of a store.
  abbrev pub Sound : Store M B I → List Pending → Type 0
  Sound s cs = IsSound (B.rows s.blocks) (I.rows s.items) cs

  pub recalculates-Sound :
      (β : ℕ) (cs cs' : List Pending) (s : Store M B I)
      → Sound s cs
      → All (IsGuarded (I.rows s.items)) cs'
      → ((b : ℕ) → (β == b) ≡ false → any (written_for b) cs' ≡ any (written_for b) cs)
      → Sound (recalculate_status M B I false β s).0 cs'
  unfolding recalculate_status
  recalculates-Sound β cs cs' s h guards same =
      let st = compute_discovery_block_status (I.find_many (of_block β) s.items) in
      let is_st : st ≡ status_of β (I.rows s.items) =
        compute-Perm _ _ (I.find_many_lem (of_block β) s.items) in
      let done =
        recalculated_lem β cs cs' (B.rows s.blocks) (I.rows s.items) st h guards same is_st in
      let updated = B.update_lem (has_id β) (λ b. record b { status = st }) s.blocks in
      elim (Bool-cases (any (has_id β) (B.rows s.blocks))) [
        | inl here ↦
            rw (rw here at updated, recalculate_status)
              (rw (B.rows-update_many (has_id β) (λ b. record b { status = st }) s.blocks) done)
        | inr gone ↦
            rw (rw gone at updated, recalculate_status)
              (rw (map_none β (λ b. record b { status = st }) (B.rows s.blocks) gone) at done)
      ]

  pub creates-Sound :
      (rejected : Bool) (pre : List Pending) (c : Pending) (cs : List Pending) (i : ℕ)
      (dto : CreateDiscoveryBlockItemDto) (s : Store M B I)
      → Sound s (pre ++ c ∷ cs)
      → c.written ≡ false
      → any (is_item i) (I.rows s.items) ≡ false
      → any (λ x. names i x.call) (pre ++ c ∷ cs) ≡ false
      → let (s', r) = create_item_transaction M B I rejected i c.block dto s in
        Sound s' (pre ++ ((if is_ok r then as_written c ∷ [] else []) ++ cs))
  unfolding create_item_transaction
  creates-Sound true pre c cs i dto s h w new unnamed = ended_lem pre c cs _ _ h w
  creates-Sound false pre c cs i dto s h w new unnamed =
      elim (Bool-cases (leb max_items_per_discovery_block (I.count (of_block c.block) s.items))) [
        | inl full ↦ rw full (ended_lem pre c cs _ _ h w)
        | inr room ↦
            let counted = I.count_lem (of_block c.block) s.items in
            let item : DiscoveryBlockItem = record {
              id = i;
              discovery_block_id = c.block;
              label = dto.label;
              is_checked = false;
              order = dto.order;
            } in
            let free : length (filter (of_block c.block) (I.rows s.items))
                < max_items_per_discovery_block =
              ground (arith, counted, room) in
            rw room (
              rw (I.rows-create item s.items) (
                written_lem pre c cs _ _ _ h w
                  (λ j. fits-append (is_item j) (I.rows s.items) item 1 (h.item_ids j) λ e.
                    let same : i ≡ j = ground (arith, e) in
                    subst (λ n. length (filter (is_item n) (I.rows s.items)) < 1) same
                      (none_yet (is_item i) (I.rows s.items) new))
                  (λ b.
                    fits-append (of_block b) (I.rows s.items) item max_items_per_discovery_block
                      (h.items_fit b)
                      λ e.
                        let same : c.block ≡ b = ground (arith, e) in
                        subst
                          (λ n.
                            length (filter (of_block n) (I.rows s.items))
                            < max_items_per_discovery_block)
                          same free)
                  (guards-append (I.rows s.items) item (pre ++ c ∷ cs) h.guarded unnamed)
                  (λ b other.
                    rw (filter-append (of_block b) (I.rows s.items) item, other) (append-nil _))))
      ]

  pub updates-Sound :
      (pre : List Pending) (c : Pending) (cs : List Pending) (id : ℕ)
      (dto : UpdateDiscoveryBlockItemDto) (s : Store M B I)
      → Sound s (pre ++ c ∷ cs)
      → c.written ≡ false
      → All (λ it. (id == it.id) ≡ true → of_block c.block it ≡ true) (I.rows s.items)
      → let (s', r) = update_item_row M B I id dto s in
        Sound s' (pre ++ ((if is_ok r then as_written c ∷ [] else []) ++ cs))
  unfolding update_item_row
  updates-Sound pre c cs id dto s h w mine =
      let updated = I.update_lem (is_item id) (patched dto) s.items in
      elim (Bool-cases (any (is_item id) (I.rows s.items))) [
        | inr gone ↦ rw (rw gone at updated, update_item_row) (ended_lem pre c cs _ _ h w)
        | inl there ↦
            rw (rw there at updated, update_item_row)
              (rw (I.rows-update_many (is_item id) (patched dto) s.items) (
                written_lem pre c cs _ _ _ h w
                  (λ j. ground (
                    arith,
                    h.item_ids j,
                    filter-map_same (is_item j) (λ x. if is_item id x then patched dto x else x)
                        (I.rows s.items) (λ x. ground arith),
                  ))
                  (λ b. ground (
                    arith,
                    h.items_fit b,
                    filter-map_same (of_block b) (λ x. if is_item id x then patched dto x else x)
                        (I.rows s.items) (λ x. ground arith),
                  ))
                  (All-mono
                    (λ x g.
                      All-map _ _ _ (I.rows s.items)
                        (λ it k. elim (Bool-cases (is_item id it)) [
                          | inl e ↦ rw e k
                          | inr e ↦ rw e k
                        ])
                        g)
                    (pre ++ c ∷ cs) h.guarded)
                  (λ b other. other_items_patched id c.block b dto (I.rows s.items) mine other)))
      ]

  pub removes-Sound :
      (pre : List Pending) (c : Pending) (cs : List Pending) (id : ℕ) (s : Store M B I)
      → Sound s (pre ++ c ∷ cs)
      → c.written ≡ false
      → All (λ it. (id == it.id) ≡ true → of_block c.block it ≡ true) (I.rows s.items)
      → Sound (remove_item_row M B I id s) (pre ++ (as_written c ∷ cs))
  unfolding remove_item_row
  removes-Sound pre c cs id s h w mine =
      let deleted = I.delete_lem (is_item id) s.items (h.item_ids id) in
      elim (Option-cases (find (is_item id) (I.rows s.items))) [
        | inl gone ↦
            rw (rw gone at deleted, remove_item_row)
              (written_lem pre c cs _ _ _ h w h.item_ids h.items_fit h.guarded (λ b other. refl))
        | inr (x, there) ↦
            rw (rw there at deleted, remove_item_row)
              (rw (I.rows-delete_many (is_item id) s.items) (
                written_lem pre c cs _ _ _ h w
                  (λ j. omega (
                    arith,
                    h.item_ids j,
                    filter-filter_le (is_item j) (λ y. not (is_item id y)) (I.rows s.items),
                  ))
                  (λ b. omega (
                    arith,
                    h.items_fit b,
                    filter-filter_le (of_block b) (λ y. not (is_item id y)) (I.rows s.items),
                  ))
                  (All-mono
                    (λ y g.
                      All-mono (λ it k. k.0) _
                        (All-filter _ (λ z. not (is_item id z)) (I.rows s.items) g))
                    (pre ++ c ∷ cs) h.guarded)
                  (λ b other. other_items_left id c.block b (I.rows s.items) mine other)))
      ]
