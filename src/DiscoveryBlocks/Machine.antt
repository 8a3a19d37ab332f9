-- ===== src/DiscoveryBlocks/Machine.antt =====
-- Calls on the items of blocks that run at once. A call waits twice: after its guard has passed, and
-- after its write, when the status is to be derived. Whoever goes on first does. The database may
-- reject a Serializable transaction, which ends its call. Where that is the derivation, the write
-- stands and the status is not derived.
use transcendence.Prelude.{
  ℕ, zero, suc, String, ◌≡◌, Bool, true, false, not, ◌&&◌, List, [], ◌∷◌, ◌++◌, ◌==◌, if◌then◌else◌,
  filter, any,
}
use transcendence.Prisma.{Table}
use transcendence.ProjectMembers.{ProjectMember}
use transcendence.ProjectMembers.Calls.{is_ok}
use transcendence.DiscoveryBlocks.{
  DiscoveryBlock, DiscoveryBlockItem, CreateDiscoveryBlockItemDto, UpdateDiscoveryBlockItemDto,
  Store, find_block, recalculate_status, create_block_transaction, update_block_row,
  remove_block_row, has_id, is_item, of_block,
}
use transcendence.DiscoveryBlocks.Items.{
  find_item, create_item_transaction, update_item_row, remove_item_row,
}

pub data Call : Type 0 where
  creates : CreateDiscoveryBlockItemDto → Call
  updates : ℕ → UpdateDiscoveryBlockItemDto → Call
  removes : ℕ → Call

-- A call on an item of a block, whose guard has passed; `written` tells whether it has written.
pub record Pending : Type 0 where
  pub block : ℕ
  pub call : Call
  pub written : Bool

-- `proceeds k rejected i`: the pending call number `k` goes on; `rejected` tells whether the database
-- rejects the transaction that it comes to, and `i` is the new id where it creates an item. The write
-- of an update or a removal is no Serializable transaction.
pub data Event : Type 0 where
  arrives : (project_id block user_id : ℕ) → Call → Event
  proceeds : (k : ℕ) (rejected : Bool) (i : ℕ) → Event
  creates_block : (rejected : Bool) (id project_id : ℕ) → String → Event
  updates_block : (id : ℕ) → (String → String) → Event
  removes_block : (id : ℕ) → Event

-- Whether a call is about an item that exists under this id.
abbrev pub names : ℕ → Call → Bool
names i (creates dto) = false
names i (updates id dto) = id == i
names i (removes id) = id == i

-- Whether a call is to derive the status of the block.
abbrev pub written_for : ℕ → Pending → Bool
written_for b c = c.written && c.block == b

module _ (M : Table ProjectMember) (B : Table DiscoveryBlock) (I : Table DiscoveryBlockItem) where
  pub record Machine : Type 0 where
    pub store : Store M B I
    pub pending : List Pending
    -- Calls that have written and whose derivation was rejected, up to the next one of their block.
    pub abandoned : List Pending

  abbrev pub passes : (project_id block user_id : ℕ) → Call → Store M B I → Bool
  passes p b u (creates dto) s = is_ok (find_block M B I p b u s)
  passes p b u (updates id dto) s = is_ok (find_item M B I p b id u s)
  passes p b u (removes id) s = is_ok (find_item M B I p b id u s)

  -- The write of a call, and whether the call goes on.
  abbrev pub write : (rejected : Bool) (new_id block : ℕ) → Call → Store M B I → Store M B I × Bool
  write rejected i b (creates dto) s =
      let (s', r) = create_item_transaction M B I rejected i b dto s in (s', is_ok r)
  write rejected i b (updates id dto) s =
      let (s', r) = update_item_row M B I id dto s in (s', is_ok r)
  write rejected i b (removes id) s = (remove_item_row M B I id s, true)

  -- A step of a call: the store, what is left of the call, and the abandoned calls.
  abbrev pub next :
      (rejected : Bool) (new_id : ℕ)
      → Pending
      → List Pending
      → Store M B I
      → Store M B I × List Pending × List Pending
  next rejected i c ab s =
      if c.written
      then (
        (recalculate_status M B I rejected c.block s).0,
        [],
        if rejected then c ∷ ab else filter (λ a. not (a.block == c.block)) ab,
      )
      else (let (s', goes_on) = write rejected i c.block c.call s in
          (s', if goes_on then record c { written = true } ∷ [] else [], ab))

  abbrev pub proceed :
      (k : ℕ) (rejected : Bool) (i : ℕ)
      → List Pending
      → List Pending
      → Store M B I
      → Store M B I × List Pending × List Pending
  proceed k rejected i [] ab s = (s, [], ab)
  proceed zero rejected i (c ∷ cs) ab s =
      let (s', c', ab') = next rejected i c ab s in (s', c' ++ cs, ab')
  proceed (suc k) rejected i (c ∷ cs) ab s =
      let (s', cs', ab') = proceed k rejected i cs ab s in (s', c ∷ cs', ab')

  abbrev pub happen : Event → Machine → Machine
  happen (arrives p b u call) m =
      if passes p b u call m.store
      then record m {
        pending = m.pending ++ record { block = b; call = call; written = false } ∷ [];
      }
      else m
  happen (proceeds k rejected i) m =
      let (store, pending, abandoned) = proceed k rejected i m.pending m.abandoned m.store in
      record { store = store; pending = pending; abandoned = abandoned }
  happen (creates_block rejected id project_id content) m = record m {
    store = (create_block_transaction M B I rejected id project_id content m.store).0;
  }
  happen (updates_block id patch) m = record m {
    store = (update_block_row M B I id patch m.store).0;
  }
  happen (removes_block id) m = record m { store = remove_block_row M B I id m.store }

  abbrev pub run : List Event → Machine → Machine
  run [] m = m
  run (e ∷ es) m = run es (happen e m)

  -- The ids that the database gives are new.
  abbrev pub IsNew : Event → Machine → Type 0
  IsNew (proceeds k rejected i) m =
      (any (is_item i) (I.rows m.store.items) ≡ false)
      × (any (λ c. names i c.call) (m.pending ++ m.abandoned) ≡ false)
  IsNew (creates_block rejected id project_id content) m =
      (any (has_id id) (B.rows m.store.blocks) ≡ false)
      × (any (of_block id) (I.rows m.store.items) ≡ false)
  IsNew _ m = Unit

  abbrev pub AreNew : List Event → Machine → Type 0
  AreNew [] m = Unit
  AreNew (e ∷ es) m = IsNew e m × AreNew es (happen e m)
