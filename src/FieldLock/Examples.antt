-- ===== src/FieldLock/Examples.antt =====
-- A field locked by one client while others come and go, and each theorem at such an input.
use Prim.Native.Char.{code}
use text.Mathlib.TextEquality.{Char-path}
use mathlib.Core.Path.{ap₂}
use transcendence.Prelude.{
  ℕ, ◌<◌, String, ◌≡◌, refl, ap, ◌≢◌, ◌↔◌, Bool, true, false, ◌&&◌, Option, none, some, List, [],
  ◌∷◌, arith, ◌==◌,
}
use transcendence.JsMap.{get, delete}
use transcendence.FieldLock.Token.{NodeCrypto, tokens_match}
use transcendence.FieldLock.{
  FieldLockLease, FieldLockManager, AcquireFieldLockInput, acquire, create, renew, extend,
  to_public_lock, assert_lease_owner_if_locked, release_user_in_project, release,
}
use transcendence.FieldLock.Acquire.{live, live-acquire, acquire-answer}
use transcendence.FieldLock.Calls.{renew_lem, assert_lease_owner_if_locked_lem}
use transcendence.FieldLock.Calls.Evict.{release_user_in_project_lem}
use transcendence.FieldLock.Calls.Histories.{Call, acquires, gets, releases, run}
use transcendence.FieldLock.Calls.Stable.{run-get_of_IsForeign}
use transcendence.FieldLock.Calls.Bounded.{abandoned_lock_is_free}
use transcendence.FieldLock.Async.{
  Interference, ran, with_validated_lease, release_expired_leases, release_socket,
}
use transcendence.FieldLock.Async.Validated.{IsInForce, with_validated_lease_ran_iff}
use transcendence.FieldLock.Async.Sweep.{
  release_expired_leases_complete, release_expired_leases_spares, release_socket_complete,
}

-- Buffers of code points, compared one by one.
abbrev codes : String → List ℕ
codes String.[] = []
codes (String.◌∷◌ c s) = code c ∷ codes s

abbrev same_bytes : List ℕ → List ℕ → Bool
same_bytes [] [] = true
same_bytes (x ∷ xs) (y ∷ ys) = x == y && same_bytes xs ys
same_bytes _ _ = false

codes-inj : (a b : String) → codes a ≡ codes b → a ≡ b
codes-inj String.[] String.[] e = refl
codes-inj (String.◌∷◌ c s) (String.◌∷◌ d t) e =
    ap₂ String.◌∷◌ (Char-path c d (cc)) (codes-inj s t (cc))
codes-inj String.[] (String.◌∷◌ d t) e = cc
codes-inj (String.◌∷◌ c s) String.[] e = cc

same_bytes_iff : (a b : List ℕ) → (same_bytes a b ≡ true) ↔ (a ≡ b)
same_bytes_iff [] [] = (λ e. refl, λ e. refl)
same_bytes_iff (x ∷ xs) (y ∷ ys) = ground (arith, same_bytes_iff xs ys)
same_bytes_iff [] (y ∷ ys) = ground arith
same_bytes_iff (x ∷ xs) [] = ground arith

abbrev plain : NodeCrypto
plain = record {
  buffer_from = codes;
  timing_safe_equal = same_bytes;
  buffer_from_inj = codes-inj;
  timing_safe_equal_iff = λ a b h. same_bytes_iff a b;
}

-- User 1 edits field 7 of project 2 through socket 5, until 30 000 ms.
abbrev ann : FieldLockLease
ann = record {
  field_lock = record {
    user_id = 1;
    username = "ann";
    avatar_url = none;
    project_id = 2;
    socket_id = 5;
    expires_at = 30_000;
  };
  token = "t1";
}

abbrev busy : FieldLockManager
busy = record { leases = (7, ann) ∷ []; has_expiration_handler = true; notified = [] }

-- User 3 asks for the same field through socket 6.
abbrev bob : AcquireFieldLockInput
bob = record {
  key = 7;
  user_id = 3;
  username = "bob";
  avatar_url = none;
  project_id = 2;
  socket_id = 6;
}

abbrev calls : List (ℕ × Call)
calls = (10, acquires "t2" bob) ∷ (20, releases 7 6) ∷ (29_999, gets 7) ∷ []

live-acquire_example : live 100 (acquire 100 "t2" busy bob).0 7 ≡ some ann
unfolding get
live-acquire_example = live-acquire 100 "t2" busy bob 7

acquire-answer_example : (acquire 40_000 "t2" busy bob).1.token ≡ some "t2"
unfolding get
acquire-answer_example = ap (λ r. r.token) (acquire-answer 40_000 "t2" busy bob)

renew_lem_example : (renew plain 100 busy 7 5 "t1").1 ≡ some (to_public_lock (extend 100 ann))
unfolding get tokens_match
renew_lem_example = (renew_lem plain 100 busy 7 5 "t1").0

assert_lease_owner_if_locked_lem_example :
    (assert_lease_owner_if_locked plain 100 busy 2 7 3 (some "t1")).1 ≡ false
unfolding get
assert_lease_owner_if_locked_lem_example =
    (assert_lease_owner_if_locked_lem plain 100 busy 2 7 3 (some "t1")).0

release_user_in_project_lem_example : get 7 (release_user_in_project busy 1 2).0.leases ≡ none
unfolding get
release_user_in_project_lem_example = (release_user_in_project_lem busy 1 2 (refl, tt)).0 7

run-get_of_IsForeign_example : get 7 (run plain busy calls).leases ≡ some ann
unfolding get
run-get_of_IsForeign_example =
    run-get_of_IsForeign plain busy calls 7 ann (refl, tt) refl (omega arith)

abandoned_lock_is_free_example :
    (acquire 70_000 "t2" (run plain create calls) bob).1.acquired ≡ true
abandoned_lock_is_free_example =
    abandoned_lock_is_free plain 30_000 70_000 calls "t2" bob (omega arith) (omega arith)

abbrev quiet : Interference
quiet m = m

with_validated_lease_ran_iff_example :
    ((with_validated_lease plain {E = ℕ} {T = ℕ} 100 200 busy 2 7 1
        (some "t1")
        none
        quiet
        (λ m. (m, 9))).1
      ≡ ran 9)
    ↔ ((◌≡◌ {A = Option ℕ} none none)
        × ((l : FieldLockLease) × IsInForce 100 busy 7 l
            × (some "t1" ≡ some l.token)
            × (l.user_id ≡ 1)
            × (l.project_id ≡ 2))
        × ((l : FieldLockLease) × IsInForce 200 busy 7 l × (some "t1" ≡ some l.token))
        × (◌≡◌ {A = ℕ} 9 9))
with_validated_lease_ran_iff_example =
    with_validated_lease_ran_iff plain 100 200 busy 2 7 1 (some "t1") none quiet (λ m. (m, 9)) 9

release_expired_leases_spares_example :
    get 7 (release_expired_leases 100 ((200, quiet) ∷ []) busy).leases ≡ some ann
unfolding get
release_expired_leases_spares_example =
    release_expired_leases_spares 100 busy ((200, quiet) ∷ []) 7 ann ((omega arith, λ m e. e), tt)
      refl

-- Ann's lease runs beside one of bob's that has run out.
abbrev mixed : FieldLockManager
mixed = record busy {
  leases =
      (8, record ann { field_lock = record (ann.field_lock) { expires_at = 50; socket_id = 6 } })
      ∷ (7, ann)
      ∷ [];
}

release_expired_leases_complete_example : 100 < 30_000
unfolding get delete release_expired_leases
release_expired_leases_complete_example =
    release_expired_leases_complete 100 mixed ((200, quiet) ∷ []) 7 ann (omega arith)
      ((omega arith, λ m j h. h), tt) refl

release_socket_complete_example : ◌≢◌ {A = ℕ} 5 6
unfolding get delete release_socket release
release_socket_complete_example =
    release_socket_complete 6 mixed (quiet ∷ []) 7 ann (omega arith) ((λ m j h. h), tt) refl
