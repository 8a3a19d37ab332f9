-- ===== src/DiscoveryBlocks/Alone.antt =====
-- A call that nobody interrupts, as a run of the machine.
use transcendence.Prelude.{
  ℕ, ◌≡◌, refl, sym, ◌∙◌, inl, inr, Bool, true, false, [], ◌∷◌, Result, ok, err, Result-cases,
}
use transcendence.Prisma.{Table}
use transcendence.ProjectMembers.{ProjectMember}
use transcendence.DiscoveryBlocks.{
  DiscoveryBlock, DiscoveryBlockItem, CreateDiscoveryBlockItemDto, UpdateDiscoveryBlockItemDto,
  Error, Store, find_block, recalculate_status,
}
use transcendence.DiscoveryBlocks.Items.{
  find_item, then_recalculate, create_item, update_item, remove_item, create_item_transaction,
  update_item_row,
}
use transcendence.DiscoveryBlocks.Machine.{
  Call, creates, updates, removes, arrives, proceeds, run, passes, write,
}

module _ (M : Table ProjectMember) (B : Table DiscoveryBlock) (I : Table DiscoveryBlockItem) where
  -- Arrival, write and derivation, with nothing in between; `r` and `r'` tell whether the database
  -- rejects the write and the derivation.
  abbrev pub alone : (r r' : Bool) (i p b u : ℕ) → Call → Store M B I → Store M B I
  alone r r' i p b u call s =
      (run M B I (arrives p b u call ∷ proceeds 0 r i ∷ proceeds 0 r' i ∷ [])
        (record { store = s; pending = []; abandoned = [] })).store

  alone_refused :
      (r r' : Bool) (i p b u : ℕ) (call : Call) (s : Store M B I)
      → passes M B I p b u call s ≡ false
      → alone r r' i p b u call s ≡ s
  alone_refused r r' i p b u call s e = rw (e, alone) refl

  alone_failed :
      (r r' : Bool) (i p b u : ℕ) (call : Call) (s : Store M B I)
      → passes M B I p b u call s ≡ true
      → (write M B I r i b call s).1 ≡ false
      → alone r r' i p b u call s ≡ (write M B I r i b call s).0
  alone_failed r r' i p b u call s e f = rw (e, alone) (rw f refl)

  alone_done :
      (r r' : Bool) (i p b u : ℕ) (call : Call) (s : Store M B I)
      → passes M B I p b u call s ≡ true
      → (write M B I r i b call s).1 ≡ true
      → alone r r' i p b u call s ≡ (recalculate_status M B I r' b (write M B I r i b call s).0).0
  alone_done r r' i p b u call s e f = rw (e, alone) (rw f refl)

  then_failed :
      {A : Type 0} (r' : Bool) (b : ℕ) (t : Store M B I) (r : Result Error A) (e : Error)
      → r ≡ err e
      → (then_recalculate M B I (λ x. x) r' b (t, r)).0 ≡ t
  then_failed r' b t r e is_err = rw is_err refl

  then_done :
      {A : Type 0} (r' : Bool) (b : ℕ) (t : Store M B I) (r : Result Error A) (a : A)
      → r ≡ ok a
      → (then_recalculate M B I (λ x. x) r' b (t, r)).0 ≡ (recalculate_status M B I r' b t).0
  then_done r' b t r a is_ok = rw is_ok refl

  create_item-alone :
      (r r' : Bool) (i p b u : ℕ) (dto : CreateDiscoveryBlockItemDto) (s : Store M B I)
      → (create_item M B I (λ t. t) (λ t. t) r r' i p b dto u s).0
        ≡ alone r r' i p b u (creates dto) s
  unfolding create_item
  create_item-alone r r' i p b u dto s = elim (Result-cases (find_block M B I p b u s)) [
    | inl (e, bad) ↦
        rw (bad, create_item) (sym (alone_refused r r' i p b u (creates dto) s (rw bad refl)))
    | inr (x, fine) ↦ elim (Result-cases (create_item_transaction M B I r i b dto s).1) [
      | inl (e, full) ↦
          rw (fine, create_item)
            (then_failed r' b _ _ e full
              ∙ sym (alone_failed r r' i p b u (creates dto) s (rw fine refl) (rw full refl)))
      | inr (y, made) ↦
          rw (fine, create_item)
            (then_done r' b _ _ y made
              ∙ sym (alone_done r r' i p b u (creates dto) s (rw fine refl) (rw made refl)))
    ]
  ]

  update_item-alone :
      (r r' : Bool) (i p b id u : ℕ) (dto : UpdateDiscoveryBlockItemDto) (s : Store M B I)
      → (update_item M B I (λ t. t) (λ t. t) r' p b id dto u s).0
        ≡ alone r r' i p b u (updates id dto) s
  unfolding update_item
  update_item-alone r r' i p b id u dto s = elim (Result-cases (find_item M B I p b id u s)) [
    | inl (e, bad) ↦
        rw (bad, update_item) (sym (alone_refused r r' i p b u (updates id dto) s (rw bad refl)))
    | inr (x, fine) ↦ elim (Result-cases (update_item_row M B I id dto s).1) [
      | inl (e, full) ↦
          rw (fine, update_item)
            (then_failed r' b _ _ e full
              ∙ sym (alone_failed r r' i p b u (updates id dto) s (rw fine refl) (rw full refl)))
      | inr (y, made) ↦
          rw (fine, update_item)
            (then_done r' b _ _ y made
              ∙ sym (alone_done r r' i p b u (updates id dto) s (rw fine refl) (rw made refl)))
    ]
  ]

  remove_item-alone :
      (r r' : Bool) (i p b id u : ℕ) (s : Store M B I)
      → (remove_item M B I (λ t. t) (λ t. t) r' p b id u s).0 ≡ alone r r' i p b u (removes id) s
  unfolding remove_item
  remove_item-alone r r' i p b id u s = elim (Result-cases (find_item M B I p b id u s)) [
    | inl (e, bad) ↦
        rw (bad, remove_item) (sym (alone_refused r r' i p b u (removes id) s (rw bad refl)))
    | inr (x, fine) ↦
        rw (fine, remove_item) (sym (alone_done r r' i p b u (removes id) s (rw fine refl) refl))
  ]

  pub calls_alone :
      (r r' : Bool) (i p b id u : ℕ) (new : CreateDiscoveryBlockItemDto)
      (dto : UpdateDiscoveryBlockItemDto) (s : Store M B I)
      → ((create_item M B I (λ t. t) (λ t. t) r r' i p b new u s).0
          ≡ alone r r' i p b u (creates new) s)
        × ((update_item M B I (λ t. t) (λ t. t) r' p b id dto u s).0
            ≡ alone r r' i p b u (updates id dto) s)
        × ((remove_item M B I (λ t. t) (λ t. t) r' p b id u s).0
            ≡ alone r r' i p b u (removes id) s)
  calls_alone r r' i p b id u new dto s = (
    create_item-alone r r' i p b u new s,
    update_item-alone r r' i p b id u dto s,
    remove_item-alone r r' i p b id u s,
  )
