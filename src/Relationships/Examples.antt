-- ===== src/Relationships/Examples.antt =====
-- Users 1 and 2: a request, an answer, a block.
use transcendence.Prelude.{ℕ, ◌≡◌, refl, ◌≢◌, ◌↔◌, true, none, some, List, [], ◌∷◌, arith, All, ok}
use transcendence.Prisma.{Table}
use transcendence.Prisma.Memory.{memory}
use transcendence.Relationships.{
  RelationshipStatus, pending_approval, accepted, blocked, UserRelationship, new_row, mask_row,
  find_all, find_by_id, create, update, remove, request_received, request_accepted,
}
use transcendence.Relationships.Spec.{create_spec, stance, Ends}
use transcendence.Relationships.View.{create-Ends, remove-Ends}
use transcendence.Relationships.Answer.{update-Ends}
use transcendence.Relationships.Consent.{
  Call, requests, answers, removes, Request, IsSound, perform, run, run-IsSound, run_consent,
  run_block,
}
use transcendence.Relationships.Mask.{IsMasked, answers-IsMasked, mask_hides_block_iff}

abbrev users : Table UserRelationship
users = memory UserRelationship

-- User 1 has asked user 2.
abbrev asked : List UserRelationship
asked = new_row 1 2 accepted ∷ new_row 2 1 pending_approval ∷ []

abbrev ask : ℕ → ℕ → Call → Request
ask caller other call = record { caller = caller; other = other; call = call }

abbrev quarrel : List Request
quarrel = ask 1 2 (answers blocked) ∷ ask 1 2 removes ∷ ask 1 2 (requests true) ∷ []

request_test : create users true 2 1 [] ≡ (asked, ok (request_received 2 1 ∷ []))
unfolding create
request_test = refl

create-Ends_example : Ends users 1 2 [] (create users true 2 1 []) (create_spec 2 1 none none)
create-Ends_example = create-Ends users 1 2 [] (λ e. omega arith) tt

update-Ends_example :
    Ends users 2 1 asked
      (update users 1 2 accepted asked)
      (record { mine = some accepted; theirs = some accepted }, ok (request_accepted 1 2 ∷ []))
update-Ends_example = update-Ends users 2 1 accepted asked (λ e. omega arith) (refl, (refl, tt))

remove-Ends_example :
    Ends users 1 2 asked (remove users 2 1 asked) (record { mine = none; theirs = none }, ok tt)
remove-Ends_example = remove-Ends users 1 2 asked (λ e. omega arith) (refl, (refl, tt))

nobody-IsSound : IsSound users []
nobody-IsSound = record { unique = tt; consistent = λ a b d. tt }

run-IsSound_example : IsSound users (run users (ask 1 2 (requests true) ∷ quarrel) [])
run-IsSound_example = run-IsSound users (ask 1 2 (requests true) ∷ quarrel) [] nobody-IsSound

run_consent_example : stance users 1 2 asked ≡ some accepted
unfolding run perform update
run_consent_example =
    run_consent users (ask 2 1 (answers accepted) ∷ []) asked 1 2 (refl, (refl, tt)) (omega arith)
      refl

run_block_example : stance users 2 1 (run users quarrel (new_row 2 1 blocked ∷ [])) ≡ some blocked
run_block_example =
    run_block users quarrel (new_row 2 1 blocked ∷ []) 2 1 (refl, tt) (omega arith) refl

answers-IsMasked_example :
    All (IsMasked 1) (find_all users (new_row 2 1 blocked ∷ []) 1)
    × All (IsMasked 1) (find_by_id users (new_row 2 1 blocked ∷ []) 2 1)
answers-IsMasked_example = answers-IsMasked users (new_row 2 1 blocked ∷ []) 1 2

mask_hides_block_iff_example :
    (mask_row 1 (new_row 2 1 blocked) ≡ mask_row 1 (new_row 2 1 pending_approval))
    ↔ (◌≢◌ {A = RelationshipStatus} pending_approval pending_approval)
mask_hides_block_iff_example =
    mask_hides_block_iff 1 (new_row 2 1 pending_approval) (λ e. omega arith)
