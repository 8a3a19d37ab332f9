-- ===== src/DiscoveryBlocks/Statuses.antt =====
-- Every event keeps what holds of the rows and of the pending calls.
use transcendence.Prelude.{
  ℕ, ◌≤◌, ◌<◌, String, ◌≡◌, refl, inl, inr, Bool, true, false, List, [], ◌∷◌, ◌++◌, arith, leb,
  ◌==◌, Bool-cases, Option-cases, length, filter, any, find, All, All-append, All-mono, any-append,
}
use transcendence.Prisma.{Table}
use transcendence.ProjectMembers.{ProjectMember}
use transcendence.DiscoveryBlocks.{
  DiscoveryBlock, DiscoveryBlockItem, not_started, create_block_transaction, update_block_row,
  remove_block_row, has_id, of_block, of_project, max_items_per_discovery_block,
  max_discovery_blocks_per_project,
}
use transcendence.DiscoveryBlocks.Rows.{status_of}
use transcendence.DiscoveryBlocks.Machine.{
  Call, Pending, written_for, passes, Machine, Event, arrives, proceeds, creates_block,
  updates_block, removes_block, happen, run, IsNew, AreNew,
}
use transcendence.DiscoveryBlocks.Sound.{
  IsGuarded, IsSound, block_added, block_changed, block_removed,
}
use transcendence.DiscoveryBlocks.Derivations.{recounted_lem, All-parts}
use transcendence.DiscoveryBlocks.Interleaved.{Sound}
use transcendence.DiscoveryBlocks.Proceeding.{passes-Guarded, proceed-Sound}

arrived :
    (bs : List DiscoveryBlock) (is : List DiscoveryBlockItem) (cs ab : List Pending) (b : ℕ)
    (call : Call)
    → IsSound bs is (cs ++ ab)
    → let c : Pending = record { block = b; call = call; written = false } in
      IsGuarded is c → IsSound bs is ((cs ++ c ∷ []) ++ ab)
arrived bs is cs ab b call h g =
    let c : Pending = record { block = b; call = call; written = false } in
    let (front, back) = All-parts (IsGuarded is) cs ab h.guarded in
    recounted_lem (cs ++ ab) ((cs ++ c ∷ []) ++ ab) bs is h
      (All-append (IsGuarded is) (cs ++ c ∷ []) ab
        (All-append (IsGuarded is) cs (c ∷ []) front (g, tt)) back)
      (λ x. ground (
        arith,
        any-append (written_for x) (cs ++ c ∷ []) ab,
        any-append (written_for x) cs (c ∷ []),
        any-append (written_for x) cs ab,
      ))

none_written :
    (b : ℕ) (cs : List Pending)
    → any (λ c. c.block == b) cs ≡ false
    → any (written_for b) cs ≡ false
none_written b [] e = refl
none_written b (c ∷ cs) e = ground (arith, none_written b cs)

module _ (M : Table ProjectMember) (B : Table DiscoveryBlock) (I : Table DiscoveryBlockItem) where
  -- The rows of a machine, with its pending and its abandoned calls.
  abbrev pub SoundMachine : Machine M B I → Type 0
  SoundMachine m = Sound M B I m.store (m.pending ++ m.abandoned)

  created :
      (rejected : Bool) (id p : ℕ) (content : String) (m : Machine M B I)
      → SoundMachine m
      → IsNew M B I (creates_block rejected id p content) m
      → SoundMachine (happen M B I (creates_block rejected id p content) m)
  unfolding create_block_transaction
  created true id p content m h new = h
  created false id p content m h (new, unused) =
      elim (Bool-cases
        (leb max_discovery_blocks_per_project (B.count (of_project p) m.store.blocks))) [
          | inl full ↦ rw full h
          | inr room ↦
              let counted = B.count_lem (of_project p) m.store.blocks in
              let free : length (filter (of_project p) (B.rows m.store.blocks))
                  < max_discovery_blocks_per_project =
                ground (arith, counted, room) in
              let block : DiscoveryBlock = record {
                id = id;
                project_id = p;
                content = content;
                status = not_started;
              } in
              rw room (
                rw (B.rows-create block m.store.blocks) (
                  block_added id p content (B.rows m.store.blocks) (I.rows m.store.items)
                    (m.pending ++ m.abandoned) h new unused free))
        ]

  updated :
      (id : ℕ) (patch : String → String) (m : Machine M B I)
      → SoundMachine m
      → SoundMachine (happen M B I (updates_block id patch) m)
  unfolding update_block_row
  updated id patch m h =
      let F : DiscoveryBlock → DiscoveryBlock = λ b. record b { content = patch b.content } in
      let law = B.update_lem (has_id id) F m.store.blocks in
      elim (Bool-cases (any (has_id id) (B.rows m.store.blocks))) [
        | inr gone ↦ rw (rw gone at law, update_block_row) h
        | inl there ↦
            rw (rw there at law, update_block_row)
              (rw (B.rows-update_many (has_id id) F m.store.blocks) (
                block_changed id patch (B.rows m.store.blocks) (I.rows m.store.items)
                  (m.pending ++ m.abandoned) h))
      ]

  removed :
      (id : ℕ) (m : Machine M B I)
      → SoundMachine m
      → SoundMachine (happen M B I (removes_block id) m)
  unfolding remove_block_row
  removed id m h =
      let law = B.delete_lem (has_id id) m.store.blocks (h.block_ids id) in
      elim (Option-cases (find (has_id id) (B.rows m.store.blocks))) [
        | inl gone ↦ rw (rw gone at law, remove_block_row) h
        | inr (x, there) ↦
            rw (rw there at law, remove_block_row)
              (rw
                (
                  B.rows-delete_many (has_id id) m.store.blocks,
                  I.rows-delete_many (of_block id) m.store.items,
                )
                (block_removed id (B.rows m.store.blocks) (I.rows m.store.items)
                  (m.pending ++ m.abandoned) h))
      ]

  happen-Sound :
      (e : Event) (m : Machine M B I)
      → SoundMachine m
      → IsNew M B I e m
      → SoundMachine (happen M B I e m)
  happen-Sound (arrives p b u call) m h new = elim (Bool-cases (passes M B I p b u call m.store)) [
    | inr refused ↦ rw refused h
    | inl passed ↦ rw passed (
        arrived _ _ m.pending m.abandoned b call h
          (passes-Guarded M B I p b u call m.store h.item_ids passed))
  ]
  happen-Sound (proceeds k rejected i) m h (new, unnamed) =
      proceed-Sound M B I k rejected i [] m.pending m.abandoned m.store h new unnamed
  happen-Sound (creates_block rejected id p content) m h new = created rejected id p content m h new
  happen-Sound (updates_block id patch) m h new = updated id patch m h
  happen-Sound (removes_block id) m h new = removed id m h

  pub run-Sound :
      (es : List Event) (m : Machine M B I)
      → SoundMachine m
      → AreNew M B I es m
      → SoundMachine (run M B I es m)
  run-Sound [] m h new = h
  run-Sound (e ∷ es) m h (new, news) = run-Sound es (happen M B I e m) (happen-Sound e m h new) news

  -- Starting from sound rows and calls (ids unique, the caps kept, each call's item in the call's
  -- block, each block's status the one that its items give unless a pending or abandoned call has
  -- written and not derived it), after any interleaving of calls on items and blocks in which the
  -- database gives new ids and rejects any Serializable transactions it likes, the status of a
  -- block is the one that its items give, unless a pending call has written in the block, or a
  -- call that has written ended because its derivation was rejected and the block's status was not
  -- derived since.
  pub settled :
      (es : List Event) (m : Machine M B I)
      → SoundMachine m
      → AreNew M B I es m
      → let after = run M B I es m in
        All
          (λ b.
            any (written_for b.id) after.pending ≡ false
            → any (λ c. c.block == b.id) after.abandoned ≡ false
            → b.status ≡ status_of b.id (I.rows after.store.items))
          (B.rows after.store.blocks)
  settled es m h new =
      let after = run M B I es m in
      All-mono
        (λ b k no_pending no_abandoned. k (
          ground (
            arith,
            any-append (written_for b.id) after.pending after.abandoned,
            no_pending,
            none_written b.id after.abandoned no_abandoned,
          )))
        (B.rows after.store.blocks) (run-Sound es m h new).derived

  -- Starting from sound rows and calls, after any interleaving of calls on items and blocks in
  -- which the database gives new ids and rejects any Serializable transactions it likes, every
  -- project has at most 20 blocks and every block at most 30 items.
  pub run_caps :
      (es : List Event) (m : Machine M B I)
      → SoundMachine m
      → AreNew M B I es m
      → let after = run M B I es m in
        ((p : ℕ)
          → length (filter (of_project p) (B.rows after.store.blocks))
            ≤ max_discovery_blocks_per_project)
        × ((b : ℕ)
            → length (filter (of_block b) (I.rows after.store.items))
              ≤ max_items_per_discovery_block)
  run_caps es m h new = let sound = run-Sound es m h new in (sound.blocks_fit, sound.items_fit)
