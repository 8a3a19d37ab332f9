-- ===== src/FieldLock/Token.antt =====
-- `tokensMatch` of backend/src/realtime/field-lock-manager.ts, and what it takes from Node.js.
use transcendence.Prelude.{ℕ, String, Bool, true, ◌&&◌, ◌==◌, List, length, ◌≡◌, ◌↔◌, refl, arith}

-- Node.js: `Buffer.from(text)` keeps texts apart, and `crypto.timingSafeEqual` compares the bytes
-- of two buffers of one length. (On buffers of different lengths it throws.)
pub record NodeCrypto : Type 0 where
  pub buffer_from : String → List ℕ
  pub timing_safe_equal : List ℕ → List ℕ → Bool
  pub buffer_from_inj : (a b : String) → buffer_from a ≡ buffer_from b → a ≡ b
  pub timing_safe_equal_iff :
      (a b : List ℕ) → length a ≡ length b → (timing_safe_equal a b ≡ true) ↔ (a ≡ b)

module _ (node : NodeCrypto) where
  open node use {buffer_from, timing_safe_equal, buffer_from_inj, timing_safe_equal_iff}

  unfoldable pub tokens_match : String → String → Bool
  tokens_match expected actual =
      let expected_buffer = buffer_from expected in
      let actual_buffer = buffer_from actual in
      length expected_buffer == length actual_buffer
      && timing_safe_equal expected_buffer actual_buffer

  -- Two tokens match exactly if they are the same text.
  pub tokens_match_iff : (a b : String) → (tokens_match a b ≡ true) ↔ (a ≡ b)
  unfolding tokens_match
  tokens_match_iff a b = (
    (λ h.
        buffer_from_inj a b
          (ground (arith, timing_safe_equal_iff (buffer_from a) (buffer_from b)))),
    (λ e.
        rw e (ground (arith, (timing_safe_equal_iff (buffer_from b) (buffer_from b) refl).1 refl))),
  )
