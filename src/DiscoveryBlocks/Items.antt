-- ===== src/DiscoveryBlocks/Items.antt =====
-- backend/src/discovery-block-items/discovery-block-items.service.ts: the items of a block's checklist.
use transcendence.Prelude.{
  ℕ, Bool, true, false, ◌&&◌, none, some, List, leb, if◌then◌else◌, Result, ok, err, ◌>>=◌,
}
use transcendence.Prisma.{Table}
use transcendence.ProjectMembers.{ProjectMember}
use transcendence.DiscoveryBlocks.{
  DiscoveryBlock, DiscoveryBlockItem, CreateDiscoveryBlockItemDto, UpdateDiscoveryBlockItemDto,
  Error, Store, item_not_found, too_many_items, transaction_conflict, max_items_per_discovery_block,
  is_item, of_block, patched, find_block, recalculate_status,
}

module _ (M : Table ProjectMember) (B : Table DiscoveryBlock) (I : Table DiscoveryBlockItem) where
  -- `findById`.
  unfoldable pub find_item :
      (project_id discovery_block_id id user_id : ℕ) → Store M B I → Result Error DiscoveryBlockItem
  unfolding find_block
  find_item project_id discovery_block_id id user_id s =
      find_block M B I project_id discovery_block_id user_id s >>= λ _.
      (elim (I.find_first (λ i. is_item id i && of_block discovery_block_id i) s.items) [
        | none ↦ err item_not_found
        | some item ↦ ok item
      ])

  -- `findAll`, without the order.
  unfoldable pub find_items :
      (project_id discovery_block_id user_id : ℕ)
      → Store M B I
      → Result Error (List DiscoveryBlockItem)
  unfolding find_block
  find_items project_id discovery_block_id user_id s =
      find_block M B I project_id discovery_block_id user_id s >>= λ _.
      ok (I.find_many (of_block discovery_block_id) s.items)

  -- The transaction of `create`; a new item is not checked.
  unfoldable pub create_item_transaction :
      (rejected : Bool) (id discovery_block_id : ℕ)
      → CreateDiscoveryBlockItemDto
      → Store M B I
      → Store M B I × Result Error DiscoveryBlockItem
  create_item_transaction true id discovery_block_id dto s = (s, err transaction_conflict)
  create_item_transaction false id discovery_block_id dto s =
      if leb max_items_per_discovery_block (I.count (of_block discovery_block_id) s.items)
      then (s, err too_many_items)
      else (let item : DiscoveryBlockItem = record {
        id = id;
        discovery_block_id = discovery_block_id;
        label = dto.label;
        is_checked = false;
        order = dto.order;
      } in
          (record s { items = I.create item s.items }, ok item))

  -- The write of `update`.
  unfoldable pub update_item_row :
      (id : ℕ) → UpdateDiscoveryBlockItemDto → Store M B I → Store M B I × Result Error (Unit {0})
  update_item_row id dto s = elim (I.update (is_item id) (patched dto) s.items) [
    | none ↦ (s, err item_not_found)
    | some items ↦ (record s { items = items }, ok tt)
  ]

  -- The write of `remove`, which succeeds also where the item is gone.
  unfoldable pub remove_item_row : (id : ℕ) → Store M B I → Store M B I
  remove_item_row id s = elim (I.delete (is_item id) s.items) [
    | none ↦ s
    | some (_, items) ↦ record s { items = items }
  ]

  -- A change of items, and what follows if it succeeds: other code, and then the status.
  abbrev pub then_recalculate :
      {A : Type 0}
      → (Store M B I → Store M B I)
      → (rejected : Bool) → ℕ
      → Store M B I × Result Error A
      → Store M B I × Result Error A
  then_recalculate meanwhile rejected discovery_block_id (s, err e) = (s, err e)
  then_recalculate meanwhile rejected discovery_block_id (s, ok a) =
      let (s', r) = recalculate_status M B I rejected discovery_block_id (meanwhile s) in
      (s', r >>= λ _. ok a)

  -- `create`, `update` and `remove`. `before` and `after` are what other code does between
  -- the guard and the write, and between the write and the derivation of the status; `rejected` tells
  -- whether the database rejects the derivation, and `write_rejected` the transaction of `create`.
  unfoldable pub create_item :
      (before after : Store M B I → Store M B I) (write_rejected rejected : Bool)
      (id project_id discovery_block_id : ℕ)
      → CreateDiscoveryBlockItemDto
      → (user_id : ℕ) → Store M B I
      → Store M B I × Result Error DiscoveryBlockItem
  unfolding create_item_transaction recalculate_status find_block
  create_item before after write_rejected rejected id project_id discovery_block_id dto user_id s =
      elim (find_block M B I project_id discovery_block_id user_id s) [
        | err e ↦ (s, err e)
        | ok _ ↦
            then_recalculate after rejected discovery_block_id
              (create_item_transaction write_rejected id discovery_block_id dto (before s))
      ]

  unfoldable pub update_item :
      (before after : Store M B I → Store M B I) (rejected : Bool)
      (project_id discovery_block_id id : ℕ)
      → UpdateDiscoveryBlockItemDto
      → (user_id : ℕ) → Store M B I
      → Store M B I × Result Error (Unit {0})
  unfolding update_item_row recalculate_status find_item
  update_item before after rejected project_id discovery_block_id id dto user_id s =
      elim (find_item project_id discovery_block_id id user_id s) [
        | err e ↦ (s, err e)
        | ok _ ↦
            then_recalculate after rejected discovery_block_id (update_item_row id dto (before s))
      ]

  unfoldable pub remove_item :
      (before after : Store M B I → Store M B I) (rejected : Bool)
      (project_id discovery_block_id id user_id : ℕ)
      → Store M B I
      → Store M B I × Result Error (Unit {0})
  unfolding remove_item_row recalculate_status find_item
  remove_item before after rejected project_id discovery_block_id id user_id s =
      elim (find_item project_id discovery_block_id id user_id s) [
        | err e ↦ (s, err e)
        | ok _ ↦
            then_recalculate after rejected discovery_block_id
              (remove_item_row id (before s), ok tt)
      ]
