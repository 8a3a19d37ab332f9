-- ===== src/Relationships.antt =====
-- backend/src/user-relationships/user-relationships.service.ts: friend requests, friends and blocks.
-- A relationship is two rows, one for each side. The rows' ids and time stamps are left out.
-- Users are known by opaque ids. A notice is what the code tries to send after its transaction; if
-- that fails the error is caught and logged, and neither the rows nor the answer change.
pub mod Rows
pub mod Spec
pub mod View
pub mod Answer
pub mod Consent
pub mod Mask
pub mod Examples
use mathlib.Core.Option
use transcendence.Prelude.{
  ℕ, zero, suc, ◌+◌, ◌-◌, ◌*◌, ◌≤◌, ◌<◌, min, max, String, ◌≡◌, refl, sym, ap, subst, ◌∙◌, ◌≡⟨◌⟩◌,
  ◌∎, ◌≢◌, ◌↔◌, ◌⊎◌, inl, inr, Bool, true, false, not, ◌&&◌, ◌||◌, Option, none, some, List, [],
  ◌∷◌, ◌++◌, map, arith, ltb, leb, ◌==◌, if◌then◌else◌, ltb→lt, lt→ltb, leb→le, ==_iff, ==_refl,
  Bool-cases, Option-cases, length, filter, any, find, All, length-append, All-append, All-mono,
  Result, ok, err, ◌>>=◌, ◌>>◌, throw_if,
}
use transcendence.Prisma.{Table}

pub data RelationshipStatus : Type 0 where
  pending_approval accepted blocked : RelationshipStatus

pub record UserRelationship : Type 0 where
  pub requester_id : ℕ
  pub addressee_id : ℕ
  pub status : RelationshipStatus

pub data Error : Type 0 where
  both_id_equal user_not_found existing_relation unknown_user same_status : Error
  invalid_status_sequence : Error

pub data Notice : Type 0 where
  request_received : (to_user from_user : ℕ) → Notice
  request_accepted : (to_user from_user : ℕ) → Notice

abbrev pub is_blocked : RelationshipStatus → Bool
is_blocked blocked = true
is_blocked _ = false

abbrev pub is_pending : RelationshipStatus → Bool
is_pending pending_approval = true
is_pending _ = false

abbrev pub is_accepted : RelationshipStatus → Bool
is_accepted accepted = true
is_accepted _ = false

abbrev pub same_as : RelationshipStatus → RelationshipStatus → Bool
same_as blocked s = is_blocked s
same_as pending_approval s = is_pending s
same_as accepted s = is_accepted s

-- `throwIfAllEqual` of backend/src/common/throwIf.ts, on values with an equality test.
abbrev pub all_equal : {A : Type 0} → (A → A → Bool) → List A → Bool
all_equal same [] = false
all_equal same (a ∷ []) = false
all_equal same (a ∷ b ∷ rest) = not (any (λ x. not (same x a)) (a ∷ b ∷ rest))

abbrev pub is_row : ℕ → ℕ → UserRelationship → Bool
is_row requester_id addressee_id r =
    r.requester_id == requester_id && r.addressee_id == addressee_id

abbrev pub new_row : ℕ → ℕ → RelationshipStatus → UserRelationship
new_row requester_id addressee_id status = record {
  requester_id = requester_id;
  addressee_id = addressee_id;
  status = status;
}

abbrev pub set_status : RelationshipStatus → UserRelationship → UserRelationship
set_status status r = record r { status = status }

-- `maskCounterpartBlocks`, on one row and on all.
unfoldable pub mask_row : ℕ → UserRelationship → UserRelationship
mask_row caller_id row =
    if not (row.requester_id == caller_id) && is_blocked row.status
    then set_status accepted row
    else row

unfoldable pub mask_counterpart_blocks : List UserRelationship → ℕ → List UserRelationship
unfolding mask_row
mask_counterpart_blocks rows caller_id = map (mask_row caller_id) rows

module _ (T : Table UserRelationship) where
  unfoldable pub find_all : T.State → ℕ → List UserRelationship
  unfolding mask_counterpart_blocks
  find_all s user_id =
      mask_counterpart_blocks
        (T.find_many (λ r. r.requester_id == user_id || r.addressee_id == user_id) s) user_id

  unfoldable pub find_by_id : T.State → ℕ → ℕ → List UserRelationship
  unfolding mask_counterpart_blocks
  find_by_id s addressee_id requester_id =
      if requester_id == addressee_id
      then []
      else mask_counterpart_blocks
          (T.find_many
            (λ r. is_row requester_id addressee_id r || is_row addressee_id requester_id r) s)
          requester_id

  abbrev pub create_if_missing : Option UserRelationship → UserRelationship → T.State → T.State
  create_if_missing none row s = T.create row s
  create_if_missing (some _) row s = s

  -- The `switch` on the addressee's row. The notice is sent unless the addressee has blocked.
  abbrev pub create_rows :
      Option UserRelationship
      → Option RelationshipStatus
      → Option UserRelationship
      → (requester_id addressee_id : ℕ) → T.State
      → T.State × Result Error (List Notice)
  create_rows mine (some accepted) theirs requester_id addressee_id s = (s, err existing_relation)
  create_rows mine (some blocked) theirs requester_id addressee_id s = (s, ok [])
  create_rows mine _ theirs requester_id addressee_id s = (
    create_if_missing theirs (new_row addressee_id requester_id pending_approval)
        (create_if_missing mine (new_row requester_id addressee_id accepted) s),
    ok (request_received addressee_id requester_id ∷ []),
  )

  abbrev pub status_of : Option UserRelationship → Option RelationshipStatus
  status_of = Option.map (λ r. r.status)

  abbrev pub is_blocked_row : Option UserRelationship → Bool
  is_blocked_row none = false
  is_blocked_row (some r) = is_blocked r.status

  create_transaction :
      (addressee_id requester_id : ℕ) → T.State → T.State × Result Error (List Notice)
  create_transaction addressee_id requester_id s =
      let mine = T.find_first (is_row requester_id addressee_id) s in
      let theirs = T.find_first (is_row addressee_id requester_id) s in
      if is_blocked_row mine
      then (s, err existing_relation)
      else create_rows mine (status_of theirs) theirs requester_id addressee_id s

  -- `addressee_found`: whether `userService.findById(addresseeId)` returns. The answer of a call
  -- that does not throw is the pair of ids, always the same; here it is the notice.
  unfoldable pub create :
      (addressee_found : Bool)
      → (addressee_id requester_id : ℕ) → T.State
      → T.State × Result Error (List Notice)
  unfolding create_transaction
  create addressee_found addressee_id requester_id s =
      if all_equal ◌==◌ (requester_id ∷ addressee_id ∷ [])
      then (s, err both_id_equal)
      else if addressee_found
      then create_transaction addressee_id requester_id s
      else (s, err user_not_found)

  -- Unblocking: the row is deleted if the other side has none, or has blocked too.
  abbrev pub nothing_to_return_to : Option UserRelationship → Bool
  nothing_to_return_to none = true
  nothing_to_return_to (some counterpart) = is_blocked counterpart.status

  -- The transaction of `update`; it answers with the status that the row had, if there was a row.
  update_row :
      RelationshipStatus
      → (addressee_id requester_id : ℕ) → (status : RelationshipStatus) → T.State
      → T.State × Result Error (Option RelationshipStatus)
  update_row current addressee_id requester_id status s =
      if same_as current status
      then (s, err same_status)
      else if not (is_pending current) && is_pending status
      then (s, err invalid_status_sequence)
      else if is_blocked current
          && not (is_blocked status)
          && nothing_to_return_to (T.find_first (is_row addressee_id requester_id) s)
      then (elim (T.delete (is_row requester_id addressee_id) s) [
        | none ↦ (s, err unknown_user)
        | some (row, s') ↦ (s', ok (some current))
      ])
      else (elim (T.update (is_row requester_id addressee_id) (set_status status) s) [
        | none ↦ (s, err unknown_user)
        | some s' ↦ (s', ok (some current))
      ])

  update_transaction :
      (addressee_id requester_id : ℕ)
      → (status : RelationshipStatus) → T.State
      → T.State × Result Error (Option RelationshipStatus)
  unfolding update_row
  update_transaction addressee_id requester_id status s =
      elim (T.find_unique (is_row requester_id addressee_id) s) [
        | none ↦
            if is_blocked status
            then (T.create (new_row requester_id addressee_id status) s, ok none)
            else (s, err unknown_user)
        | some row ↦ update_row row.status addressee_id requester_id status s
      ]

  -- The notice goes out when a pending request was accepted.
  abbrev pub accept_notice :
      (addressee_id requester_id : ℕ)
      → (status : RelationshipStatus) → Result Error (Option RelationshipStatus)
      → Result Error (List Notice)
  accept_notice addressee_id requester_id status (err e) = err e
  accept_notice addressee_id requester_id status (ok none) = ok []
  accept_notice addressee_id requester_id status (ok (some current)) = ok (
      if is_pending current && is_accepted status
      then request_accepted addressee_id requester_id ∷ []
      else [])

  unfoldable pub update :
      (addressee_id requester_id : ℕ)
      → (status : RelationshipStatus) → T.State
      → T.State × Result Error (List Notice)
  unfolding update_transaction
  update addressee_id requester_id status s =
      if all_equal ◌==◌ (requester_id ∷ addressee_id ∷ [])
      then (s, err both_id_equal)
      else (let (s', r) = update_transaction addressee_id requester_id status s in
          (s', accept_notice addressee_id requester_id status r))

  unfoldable pub remove :
      (addressee_id requester_id : ℕ) → T.State → T.State × Result Error (Unit {0})
  remove addressee_id requester_id s =
      if all_equal ◌==◌ (requester_id ∷ addressee_id ∷ []) then (s, err both_id_equal) else (
        T.delete_many (λ r. is_row addressee_id requester_id r && not (is_blocked r.status))
            (T.delete_many (λ r. is_row requester_id addressee_id r && not (is_blocked r.status))
              s),
        ok tt,
      )
