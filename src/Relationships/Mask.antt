-- ===== src/Relationships/Mask.antt =====
-- What a user sees of the other side's stance.
use transcendence.Prelude.{ℕ, ◌≡◌, ◌≢◌, ◌↔◌, inl, inr, List, [], ◌∷◌, arith, ◌==◌, Bool-cases, All}
use transcendence.Prisma.{Table}
use transcendence.Relationships.{
  pending_approval, blocked, UserRelationship, set_status, mask_row, mask_counterpart_blocks,
  find_all, find_by_id,
}

-- The caller's own rows, and no block of anyone else.
abbrev pub IsMasked : ℕ → UserRelationship → Type 0
IsMasked caller_id r = r.requester_id ≢ caller_id → r.status ≢ blocked

mask-IsMasked :
    (rows : List UserRelationship) (caller_id : ℕ)
    → All (IsMasked caller_id) (mask_counterpart_blocks rows caller_id)
unfolding mask_counterpart_blocks
mask-IsMasked [] caller_id = tt
mask-IsMasked (r ∷ rows) caller_id = (ground arith, mask-IsMasked rows caller_id)

-- No row of another user in the answer of `findAll` or `findById` shows BLOCKED.
pub answers-IsMasked :
    (T : Table UserRelationship) (s : T.State) (caller_id other_id : ℕ)
    → All (IsMasked caller_id) (find_all T s caller_id)
      × All (IsMasked caller_id) (find_by_id T s other_id caller_id)
unfolding find_all find_by_id
answers-IsMasked T s caller_id other_id = (
  mask-IsMasked _ caller_id,
  elim (Bool-cases (caller_id == other_id)) [
    | inl e ↦ rw e tt
    | inr e ↦ rw e (mask-IsMasked _ caller_id)
  ],
)

-- A row of another user reads the same once it is blocked as it reads now exactly if it is no
-- pending request.
pub mask_hides_block_iff :
    (caller_id : ℕ) (r : UserRelationship)
    → r.requester_id ≢ caller_id
    → (mask_row caller_id (set_status blocked r) ≡ mask_row caller_id r)
      ↔ (r.status ≢ pending_approval)
unfolding mask_row
mask_hides_block_iff caller_id r ne = (λ e p. ground arith, λ n. ground arith)
