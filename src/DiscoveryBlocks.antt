-- ===== src/DiscoveryBlocks.antt =====
-- backend/src/discovery-blocks/discovery-blocks.service.ts, discovery-block-status.util.ts and
-- backend/src/discovery-block-items/discovery-block-items.service.ts: a project's discovery blocks and
-- the checklist of each, from which the block's status is derived. Each call is a guard, a write and,
-- after a change of items, a transaction that derives the status; other code runs in between. A
-- Serializable transaction that the database rejects (P2034) changes nothing and ends the call: its
-- argument `rejected` says whether it is. The field lock around the update and removal of a block and the events are left out. The
-- fields that the service only hands through (title, description, icon, color, notes) are one value,
-- and a patch of them is a function on it.
pub mod Items
pub mod Rows
pub mod Machine
pub mod Sound
pub mod Writes
pub mod Derivations
pub mod Interleaved
pub mod Proceeding
pub mod Statuses
pub mod Alone
pub mod Examples
use transcendence.Prelude.{
  ℕ, zero, suc, ◌+◌, ◌-◌, ◌*◌, ◌≤◌, ◌<◌, min, max, String, ◌≡◌, refl, sym, ap, subst, ◌∙◌, ◌≡⟨◌⟩◌,
  ◌∎, ◌≢◌, ◌↔◌, ◌⊎◌, inl, inr, Bool, true, false, not, ◌&&◌, ◌||◌, Option, none, some, List, [],
  ◌∷◌, ◌++◌, map, arith, ltb, leb, ◌==◌, if◌then◌else◌, ltb→lt, lt→ltb, leb→le, ==_iff, ==_refl,
  Bool-cases, Option-cases, length, filter, any, find, All, length-append, All-append, All-mono,
  Result, ok, err, ◌>>=◌, ◌>>◌, throw_if, Result-cases, ℤ, pos, negsuc,
}
use transcendence.Prisma.{Table}
use transcendence.ProjectMembers.{ProjectMember, assert_membership}

pub data DiscoveryBlockStatus : Type 0 where
  not_started in_progress completed : DiscoveryBlockStatus

pub record DiscoveryBlock : Type 0 where
  pub id : ℕ
  pub project_id : ℕ
  pub content : String
  pub status : DiscoveryBlockStatus

pub record DiscoveryBlockItem : Type 0 where
  pub id : ℕ
  pub discovery_block_id : ℕ
  pub label : String
  pub is_checked : Bool
  pub order : ℕ

pub record CreateDiscoveryBlockItemDto : Type 0 where
  pub label : String
  pub order : ℕ

pub record UpdateDiscoveryBlockItemDto : Type 0 where
  pub label : Option String
  pub order : Option ℕ
  pub is_checked : Option Bool

-- `record_not_found` and `transaction_conflict` are Prisma's own errors (P2025, P2034), passed on.
pub data Error : Type 0 where
  project_not_found block_not_found item_not_found too_many_blocks too_many_items : Error
  record_not_found transaction_conflict : Error

abbrev pub max_discovery_blocks_per_project : ℕ
max_discovery_blocks_per_project = 20

abbrev pub max_items_per_discovery_block : ℕ
max_items_per_discovery_block = 30

unfoldable pub compute_discovery_block_status : List DiscoveryBlockItem → DiscoveryBlockStatus
compute_discovery_block_status items =
    let checked_count = length (filter (λ i. i.is_checked) items) in
    if length items == 0 || checked_count == 0
    then not_started
    else if checked_count == length items
    then completed
    else in_progress

abbrev pub has_id : ℕ → DiscoveryBlock → Bool
has_id id b = b.id == id

abbrev pub is_item : ℕ → DiscoveryBlockItem → Bool
is_item id i = i.id == id

abbrev pub of_project : ℕ → DiscoveryBlock → Bool
of_project project_id b = b.project_id == project_id

abbrev pub of_block : ℕ → DiscoveryBlockItem → Bool
of_block discovery_block_id i = i.discovery_block_id == discovery_block_id

-- `value ?? old`, for a field of a partial update.
abbrev pub or_old : {A : Type 0} → Option A → A → A
or_old (some new) old = new
or_old none old = old

abbrev pub patched : UpdateDiscoveryBlockItemDto → DiscoveryBlockItem → DiscoveryBlockItem
patched dto i = record i {
  label = or_old dto.label i.label;
  order = or_old dto.order i.order;
  is_checked = or_old dto.is_checked i.is_checked;
}

module _ (M : Table ProjectMember) (B : Table DiscoveryBlock) (I : Table DiscoveryBlockItem) where
  pub record Store : Type 0 where
    pub members : M.State
    pub blocks : B.State
    pub items : I.State

  -- `findById` of the blocks.
  unfoldable pub find_block : (project_id id user_id : ℕ) → Store → Result Error DiscoveryBlock
  find_block project_id id user_id s = elim (assert_membership M project_id user_id s.members) [
    | err _ ↦ err project_not_found
    | ok _ ↦ elim (B.find_first (λ b. has_id id b && of_project project_id b) s.blocks) [
      | none ↦ err block_not_found
      | some block ↦ ok block
    ]
  ]

  -- `findAll` of the blocks, without the order (`createdAt`).
  unfoldable pub find_blocks : (project_id user_id : ℕ) → Store → Result Error (List DiscoveryBlock)
  find_blocks project_id user_id s = elim (assert_membership M project_id user_id s.members) [
    | err _ ↦ err project_not_found
    | ok _ ↦ ok (B.find_many (of_project project_id) s.blocks)
  ]

  -- The transaction of `create`; `id` is the new row's.
  unfoldable pub create_block_transaction :
      (rejected : Bool) (id project_id : ℕ) (content : String)
      → Store
      → Store × Result Error DiscoveryBlock
  create_block_transaction true id project_id content s = (s, err transaction_conflict)
  create_block_transaction false id project_id content s =
      if leb max_discovery_blocks_per_project (B.count (of_project project_id) s.blocks)
      then (s, err too_many_blocks)
      else (let block : DiscoveryBlock = record {
        id = id;
        project_id = project_id;
        content = content;
        status = not_started;
      } in
          (record s { blocks = B.create block s.blocks }, ok block))

  -- `create` of a block. `meanwhile` is what other code does between the guard and the transaction.
  unfoldable pub create_block :
      (meanwhile : Store → Store) (rejected : Bool) (id project_id : ℕ) (content : String)
      (user_id : ℕ)
      → Store
      → Store × Result Error DiscoveryBlock
  create_block meanwhile rejected id project_id content user_id s =
      elim (assert_membership M project_id user_id s.members) [
        | err _ ↦ (s, err project_not_found)
        | ok _ ↦ create_block_transaction rejected id project_id content (meanwhile s)
      ]

  -- The write of `update` of a block: the fields that are given, never the status.
  unfoldable pub update_block_row :
      (id : ℕ) (patch : String → String) → Store → Store × Result Error (Unit {0})
  update_block_row id patch s =
      elim (B.update (has_id id) (λ b. record b { content = patch b.content }) s.blocks) [
        | none ↦ (s, err block_not_found)
        | some blocks ↦ (record s { blocks = blocks }, ok tt)
      ]

  -- The write of `remove` of a block, with the cascade to its items.
  unfoldable pub remove_block_row : (id : ℕ) → Store → Store
  remove_block_row id s = elim (B.delete (has_id id) s.blocks) [
    | none ↦ s
    | some (_, blocks) ↦ record s { blocks = blocks; items = I.delete_many (of_block id) s.items }
  ]

  unfoldable pub recalculate_status :
      (rejected : Bool) (discovery_block_id : ℕ) → Store → Store × Result Error (Unit {0})
  recalculate_status true discovery_block_id s = (s, err transaction_conflict)
  recalculate_status false discovery_block_id s =
      let items = I.find_many (of_block discovery_block_id) s.items in
      elim (B.update (has_id discovery_block_id)
        (λ b. record b { status = compute_discovery_block_status items }) s.blocks) [
          | none ↦ (s, err record_not_found)
          | some blocks ↦ (record s { blocks = blocks }, ok tt)
        ]
