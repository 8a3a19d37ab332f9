-- ===== src/DiscoveryBlocks/Examples.antt =====
-- A project 1 with the members 5 and 6 and a block 10 of two items, 20 and 21.
use transcendence.Prelude.{
  ℕ, ◌≤◌, ◌≡◌, refl, Bool, true, false, none, some, List, [], ◌∷◌, arith, length, filter, err,
}
use transcendence.Prisma.{Table}
use transcendence.Prisma.Memory.{memory}
use transcendence.ProjectMembers.{ProjectMember, member, owner, assert_membership}
use transcendence.DiscoveryBlocks.{
  DiscoveryBlock, DiscoveryBlockItem, DiscoveryBlockStatus, UpdateDiscoveryBlockItemDto, Store,
  in_progress, completed, record_not_found, transaction_conflict, project_not_found,
  compute_discovery_block_status, find_block, recalculate_status, remove_block_row, of_block,
  of_project, max_discovery_blocks_per_project, max_items_per_discovery_block,
}
use transcendence.DiscoveryBlocks.Items.{find_item, find_items, update_item, update_item_row}
use transcendence.DiscoveryBlocks.Rows.{status_of}
use transcendence.DiscoveryBlocks.Machine.{updates, Machine, Event, arrives, proceeds, run, AreNew}
use transcendence.DiscoveryBlocks.Statuses.{SoundMachine, settled, run_caps}

abbrev people : Table ProjectMember
people = memory ProjectMember

abbrev block_table : Table DiscoveryBlock
block_table = memory DiscoveryBlock

abbrev item_table : Table DiscoveryBlockItem
item_table = memory DiscoveryBlockItem

abbrev item : ℕ → Bool → DiscoveryBlockItem
item id is_checked = record {
  id = id;
  discovery_block_id = 10;
  label = "l";
  is_checked = is_checked;
  order = 0;
}

abbrev block_with : DiscoveryBlockStatus → DiscoveryBlock
block_with status = record { id = 10; project_id = 1; content = "c"; status = status }

abbrev the_store : Store people block_table item_table
the_store = record {
  members =
      record { user_id = 5; project_id = 1; role = owner }
      ∷ record { user_id = 6; project_id = 1; role = member }
      ∷ [];
  blocks = block_with in_progress ∷ [];
  items = item 20 true ∷ item 21 false ∷ [];
}

abbrev tick : Bool → UpdateDiscoveryBlockItemDto
tick b = record { label = none; order = none; is_checked = some b }

ticked_test :
    (let after =
        update_item people block_table item_table
          (λ s. s)
          (λ s. s)
          false
          1
          10
          21
          (tick true)
          6
          the_store in
      after.0.blocks)
    ≡ block_with completed ∷ []
unfolding update_item find_item find_block assert_membership update_item_row recalculate_status
    compute_discovery_block_status
ticked_test = refl

stranger_test : find_items people block_table item_table 1 10 7 the_store ≡ err project_not_found
unfolding find_items find_block assert_membership
stranger_test = refl

-- The block is removed between the write and the derivation of its status: Prisma's own error.
removed_meanwhile :
    (let after =
        update_item people block_table item_table
          (λ s. s)
          (remove_block_row people block_table item_table 10)
          false
          1
          10
          21
          (tick true)
          6
          the_store in
      after.1)
    ≡ err record_not_found
unfolding update_item find_item find_block assert_membership update_item_row recalculate_status
    compute_discovery_block_status remove_block_row
removed_meanwhile = refl

abbrev start : Machine people block_table item_table
start = record { store = the_store; pending = []; abandoned = [] }

-- Two users tick and untick at once. The first one's status is derived before the second one writes,
-- and the second one's derivation is rejected.
abbrev conflict : List Event
conflict =
    arrives 1 10 5 (updates 21 (tick true))
    ∷ arrives 1 10 6 (updates 20 (tick false))
    ∷ proceeds 0 false 30
    ∷ proceeds 0 false 30
    ∷ proceeds 0 false 30
    ∷ proceeds 0 true 30
    ∷ []

-- Both calls have ended, one of two items is checked, and the block is COMPLETED.
stale_test :
    let after = run people block_table item_table conflict start in
    (after.store.blocks ≡ block_with completed ∷ [])
    × (after.pending ≡ [])
    × (after.store.items ≡ item 20 false ∷ item 21 true ∷ [])
unfolding find_item find_block assert_membership update_item_row recalculate_status
    compute_discovery_block_status
stale_test = (refl, refl, refl)

-- The user whose item is written gets an error.
rejected_test :
    let after =
      update_item people block_table item_table
        (λ s. s)
        (λ s. s)
        true
        1
        10
        20
        (tick false)
        6
        the_store in
    (after.0.items ≡ item 20 false ∷ item 21 false ∷ []) × (after.1 ≡ err transaction_conflict)
unfolding update_item find_item find_block assert_membership update_item_row recalculate_status
rejected_test = (refl, refl)

-- Another call on the block makes up for it.
abbrev race : List Event
race =
    arrives 1 10 5 (updates 21 (tick true))
    ∷ arrives 1 10 6 (updates 20 (tick false))
    ∷ proceeds 0 false 30
    ∷ proceeds 0 false 30
    ∷ proceeds 0 false 30
    ∷ proceeds 0 true 30
    ∷ arrives 1 10 5 (updates 21 (tick true))
    ∷ proceeds 0 false 30
    ∷ proceeds 0 false 30
    ∷ []

start-SoundMachine : SoundMachine people block_table item_table start
unfolding compute_discovery_block_status
start-SoundMachine = record {
  block_ids = λ i. ground arith;
  item_ids = λ i. ground arith;
  blocks_fit = λ p. ground arith;
  items_fit = λ b. ground arith;
  guarded = tt;
  derived = ((λ e. refl), tt);
}

race-AreNew : AreNew people block_table item_table race start
unfolding find_item find_block assert_membership update_item_row recalculate_status
    compute_discovery_block_status
race-AreNew = (
  tt,
  (
    tt,
    (
      (refl, refl),
      ((refl, refl), ((refl, refl), ((refl, refl), (tt, ((refl, refl), ((refl, refl), tt)))))),
    ),
  ),
)

settled_example : in_progress ≡ status_of 10 (item 20 false ∷ item 21 true ∷ [])
unfolding find_item find_block assert_membership update_item_row recalculate_status
    compute_discovery_block_status
settled_example =
    (settled people block_table item_table race start start-SoundMachine race-AreNew).0 refl refl

run_caps_example :
    let after = run people block_table item_table race start in
    ((p : ℕ) → length (filter (of_project p) after.store.blocks) ≤ max_discovery_blocks_per_project)
    × ((b : ℕ) → length (filter (of_block b) after.store.items) ≤ max_items_per_discovery_block)
run_caps_example = run_caps people block_table item_table race start start-SoundMachine race-AreNew
