-- ===== src/DiscoveryBlocks/Proceeding.antt =====
-- What a passed guard says, and what a pending call that goes on keeps.
use transcendence.Prelude.{
  ℕ, zero, suc, ◌≤◌, ◌≡◌, refl, sym, subst, inl, inr, Bool, true, false, not, ◌&&◌, some, List, [],
  ◌∷◌, ◌++◌, arith, ◌==◌, if◌then◌else◌, Bool-cases, Option-cases, length, filter, any, find, All,
  All-append, All-mono, any-append, Result-cases,
}
use mathlib.Core.List.{append_assoc}
use transcendence.Prisma.{Table}
use transcendence.ProjectMembers.{ProjectMember}
use transcendence.ProjectMembers.Calls.{is_ok}
use transcendence.DiscoveryBlocks.{
  DiscoveryBlock, DiscoveryBlockItem, Store, find_block, recalculate_status, is_item, of_block,
}
use transcendence.DiscoveryBlocks.Items.{find_item}
use transcendence.DiscoveryBlocks.Machine.{
  Call, creates, updates, removes, Pending, names, written_for, write, next, proceed, passes,
}
use transcendence.DiscoveryBlocks.Rows.{All-filter}
use transcendence.DiscoveryBlocks.Writes.{as_written}
use transcendence.DiscoveryBlocks.Sound.{IsGuarded}
use transcendence.DiscoveryBlocks.Derivations.{recounted_lem, others_abandoned, All-parts}
use transcendence.DiscoveryBlocks.Interleaved.{
  Sound, recalculates-Sound, creates-Sound, updates-Sound, removes-Sound,
}

-- What a passed guard says.
find_counts :
    (id b : ℕ) (is : List DiscoveryBlockItem) (x : DiscoveryBlockItem)
    → find (λ i. is_item id i && of_block b i) is ≡ some x
    → 1 ≤ length (filter (is_item id) is)
find_counts id b [] x e = cc
find_counts id b (i ∷ is) x e = ground (arith, find_counts id b is x)

none_named :
    (id b : ℕ) (is : List DiscoveryBlockItem)
    → length (filter (is_item id) is) ≡ 0
    → All (λ it. (id == it.id) ≡ true → of_block b it ≡ true) is
none_named id b [] e = tt
none_named id b (i ∷ is) e = ground (arith, e, none_named id b is)

found_guard :
    (id b : ℕ) (is : List DiscoveryBlockItem) (x : DiscoveryBlockItem)
    → length (filter (is_item id) is) ≤ 1
    → find (λ i. is_item id i && of_block b i) is ≡ some x
    → All (λ it. (id == it.id) ≡ true → of_block b it ≡ true) is
found_guard id b [] x h e = tt
found_guard id b (i ∷ is) x h e = elim (Bool-cases (is_item id i)) [
  | inl same ↦ elim (Bool-cases (of_block b i)) [
    | inl mine ↦ ((λ _. mine), none_named id b is (ground (arith, h, same)))
    | inr other ↦
        let later : find (λ j. is_item id j && of_block b j) is ≡ some x =
          ground (arith, e, same, other) in
        let some_more = find_counts id b is x later in
        let bad : true ≡ false = ground (arith, h, same, some_more) in cc
  ]
  | inr other ↦ (
    (λ e'. ground (arith, other, e')),
    found_guard id b is x (ground (arith, h, other)) (ground (arith, e, other)),
  )
]

no_names :
    (P : DiscoveryBlockItem → Type 0) (is : List DiscoveryBlockItem)
    → All (λ it. false ≡ true → P it) is
no_names P [] = tt
no_names P (i ∷ is) = ((λ e. cc), no_names P is)

count_both :
    (id b : ℕ) (is : List DiscoveryBlockItem)
    → length (filter (λ i. is_item id i && of_block b i) is) ≤ length (filter (is_item id) is)
count_both id b [] = omega arith
count_both id b (i ∷ is) = ground (arith, count_both id b is)

All-middle :
    (P : Pending → Type 0) (pre : List Pending) (c : Pending) (cs : List Pending)
    → All P (pre ++ c ∷ cs)
    → P c
All-middle P [] c cs h = h.0
All-middle P (x ∷ pre) c cs h = All-middle P pre c cs h.1

module _ (M : Table ProjectMember) (B : Table DiscoveryBlock) (I : Table DiscoveryBlockItem) where
  found :
      (p b id u : ℕ) (s : Store M B I)
      → length (filter (is_item id) (I.rows s.items)) ≤ 1
      → is_ok (find_item M B I p b id u s) ≡ true
      → All (λ it. (id == it.id) ≡ true → of_block b it ≡ true) (I.rows s.items)
  unfolding find_item
  found p b id u s h e = elim (Result-cases (find_block M B I p b u s)) [
    | inl (x, bad) ↦ (let no = rw (find_item, bad) at e in cc)
    | inr (x, fine) ↦
        elim (Option-cases (find (λ i. is_item id i && of_block b i) (I.rows s.items))) [
          | inl nothing ↦
              let one = count_both id b (I.rows s.items) in
              let looked =
                I.find_first_lem (λ i. is_item id i && of_block b i) s.items
                  (omega (arith, h, one)) in
              let no = rw (find_item, fine, looked, nothing) at e in cc
          | inr (it, there) ↦ found_guard id b (I.rows s.items) it h there
        ]
  ]

  pub passes-Guarded :
      (p b u : ℕ) (call : Call) (s : Store M B I)
      → ((i : ℕ) → length (filter (is_item i) (I.rows s.items)) ≤ 1)
      → passes M B I p b u call s ≡ true
      → IsGuarded (I.rows s.items) (record { block = b; call = call; written = false })
  passes-Guarded p b u (creates dto) s h e = no_names _ (I.rows s.items)
  passes-Guarded p b u (updates id dto) s h e = found p b id u s (h id) e
  passes-Guarded p b u (removes id) s h e = found p b id u s (h id) e

  writes-Sound :
      (rejected : Bool) (i : ℕ) (pre : List Pending) (b : ℕ) (call : Call) (cs : List Pending)
      (s : Store M B I)
      → let c : Pending = record { block = b; call = call; written = false } in
        Sound M B I s (pre ++ c ∷ cs)
        → any (is_item i) (I.rows s.items) ≡ false
        → any (λ x. names i x.call) (pre ++ c ∷ cs) ≡ false
        → let (s', goes_on) = write M B I rejected i b call s in
          Sound M B I s' (pre ++ ((if goes_on then as_written c ∷ [] else []) ++ cs))
  writes-Sound rejected i pre b (creates dto) cs s h new unnamed =
      creates-Sound M B I rejected pre _ cs i dto s h refl new unnamed
  writes-Sound rejected i pre b (updates id dto) cs s h new unnamed =
      updates-Sound M B I pre (record { block = b; call = updates id dto; written = false }) cs id
        dto s h refl
        (All-middle (IsGuarded (I.rows s.items)) pre
          (record { block = b; call = updates id dto; written = false }) cs h.guarded)
  writes-Sound rejected i pre b (removes id) cs s h new unnamed =
      removes-Sound M B I pre (record { block = b; call = removes id; written = false }) cs id s h
        refl
        (All-middle (IsGuarded (I.rows s.items)) pre
          (record { block = b; call = removes id; written = false }) cs h.guarded)

  -- The call's derivation is rejected: it is abandoned.
  rejected-Sound :
      (pre : List Pending) (c : Pending) (cs ab : List Pending) (s : Store M B I)
      → Sound M B I s (pre ++ c ∷ (cs ++ ab))
      → Sound M B I s (pre ++ (cs ++ c ∷ ab))
  rejected-Sound pre c cs ab s h =
      let P = IsGuarded (I.rows s.items) in
      let (front, (here, rest)) = All-parts P pre (c ∷ (cs ++ ab)) h.guarded in
      let (middle, back) = All-parts P cs ab rest in
      recounted_lem (pre ++ c ∷ (cs ++ ab)) (pre ++ (cs ++ c ∷ ab)) _ _ h
        (All-append P pre _ front (All-append P cs _ middle (here, back)))
        (λ b. ground (
          arith,
          any-append (written_for b) pre (c ∷ (cs ++ ab)),
          any-append (written_for b) pre (cs ++ c ∷ ab),
          any-append (written_for b) cs ab,
          any-append (written_for b) cs (c ∷ ab),
        ))

  -- The status is derived: the call ends, and so is made up for what was abandoned.
  derives-Sound :
      (pre : List Pending) (c : Pending) (cs ab : List Pending) (s : Store M B I)
      → Sound M B I s (pre ++ c ∷ (cs ++ ab))
      → Sound M B I
          (recalculate_status M B I false c.block s).0
          (pre ++ (cs ++ filter (λ a. not (a.block == c.block)) ab))
  derives-Sound pre c cs ab s h =
      let P = IsGuarded (I.rows s.items) in
      let left = filter (λ a. not (a.block == c.block)) ab in
      let (front, (here, rest)) = All-parts P pre (c ∷ (cs ++ ab)) h.guarded in
      let (middle, back) = All-parts P cs ab rest in
      let kept =
        All-mono (λ a g. g.0) left (All-filter P (λ a. not (a.block == c.block)) ab back) in
      recalculates-Sound M B I c.block (pre ++ c ∷ (cs ++ ab)) (pre ++ (cs ++ left)) s h
        (All-append P pre _ front (All-append P cs _ middle kept))
        (λ b other. ground (
          arith,
          other,
          any-append (written_for b) pre (c ∷ (cs ++ ab)),
          any-append (written_for b) pre (cs ++ left),
          any-append (written_for b) cs ab,
          any-append (written_for b) cs left,
          others_abandoned c.block b ab other,
        ))

  next-Sound :
      (rejected : Bool) (i : ℕ) (pre : List Pending) (b : ℕ) (call : Call) (w : Bool)
      (cs ab : List Pending) (s : Store M B I)
      → let c : Pending = record { block = b; call = call; written = w } in
        Sound M B I s (pre ++ c ∷ (cs ++ ab))
        → any (is_item i) (I.rows s.items) ≡ false
        → any (λ x. names i x.call) (pre ++ c ∷ (cs ++ ab)) ≡ false
        → let (s', c', ab') = next M B I rejected i c ab s in
          Sound M B I s' (pre ++ ((c' ++ cs) ++ ab'))
  unfolding recalculate_status
  next-Sound true i pre b call true cs ab s h new unnamed =
      rejected-Sound pre (record { block = b; call = call; written = true }) cs ab s h
  next-Sound false i pre b call true cs ab s h new unnamed =
      derives-Sound pre (record { block = b; call = call; written = true }) cs ab s h
  next-Sound rejected i pre b call false cs ab s h new unnamed =
      let c : Pending = record { block = b; call = call; written = false } in
      let done = writes-Sound rejected i pre b call (cs ++ ab) s h new unnamed in
      subst (λ xs. Sound M B I (next M B I rejected i c ab s).0 (pre ++ xs))
        (sym (append_assoc (next M B I rejected i c ab s).1 cs ab)) done

  pub proceed-Sound :
      (k : ℕ) (rejected : Bool) (i : ℕ) (pre cs ab : List Pending) (s : Store M B I)
      → Sound M B I s (pre ++ (cs ++ ab))
      → any (is_item i) (I.rows s.items) ≡ false
      → any (λ x. names i x.call) (pre ++ (cs ++ ab)) ≡ false
      → let (s', cs', ab') = proceed M B I k rejected i cs ab s in
        Sound M B I s' (pre ++ (cs' ++ ab'))
  proceed-Sound k rejected i pre [] ab s h new unnamed = h
  proceed-Sound zero rejected i pre (c ∷ cs) ab s h new unnamed =
      next-Sound rejected i pre c.block c.call c.written cs ab s h new unnamed
  proceed-Sound (suc k) rejected i pre (c ∷ cs) ab s h new unnamed =
      let moved = λ (xs : List Pending). append_assoc pre (c ∷ []) xs in
      let after = proceed M B I k rejected i cs ab s in
      subst (λ xs. Sound M B I after.0 xs) (moved (after.1 ++ after.2))
        (proceed-Sound k rejected i (pre ++ c ∷ []) cs ab s
          (subst (λ xs. Sound M B I s xs) (sym (moved (cs ++ ab))) h) new
          (subst (λ xs. any (λ x. names i x.call) xs ≡ false) (sym (moved (cs ++ ab))) unnamed))
