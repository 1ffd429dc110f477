-- ===== src/DelayableWork/Words.antt =====
-- The word of a delayable work item as the 32-bit number that state_ is.
use micr_osal.Common.{ℕ, ◌+◌, ◌*◌, ◌/◌, ◌%◌, ◌^◌, ◌<◌, ◌≡◌, ◌==◌, arith}
use micr_osal.DelayableWork.{
  State, armed, code, Word, generations, with_state, next_generation, same_word,
}

abbrev pub number : Word → ℕ
number w = w.generation * 8 + code w.state

-- value & kStateMask, and (value & ~kStateMask) | desired
abbrev pub number_state : ℕ → ℕ
number_state value = value % 8

abbrev pub number_with : ℕ → ℕ → ℕ
number_with value desired = value / 8 * 8 + desired

-- (value & ~kStateMask) + kGenerationStep, as a std::uint32_t, with armed
abbrev pub number_next : ℕ → ℕ
number_next value = number_with ((value / 8 * 8 + 8) % 2 ^ 32) (code armed)

code_bound : (v : State) → code v < 8
code_bound v = ground arith

code_injective : (v u : State) → code v ≡ code u → v ≡ u
code_injective v u e = ground arith

-- A word whose generation has 29 bits, and the 32-bit number that state_ is, are the same thing to each
-- operation: decode_state, with_state, the next generation, and the comparison of a compare-exchange.
pub Word-number :
    (w u : Word) (v : State)
    → w.generation < generations
    → u.generation < generations
    → (number_state (number w) ≡ code w.state)
      × (number (with_state w v) ≡ number_with (number w) (code v))
      × (number (next_generation w) ≡ number_next (number w))
      × (same_word w u ≡ (number w == number u))
Word-number w u v b c =
    let bw = code_bound w.state in
    let bu = code_bound u.state in
    let bv = code_bound v in (omega arith, omega arith, omega arith, ground arith)
