-- ===== src/Agents/Contract/Repair.antt =====
-- Where the result of a sub-agent comes from.
use neuralhub.Base.{
  ℕ, zero, suc, ◌≡◌, refl, ◌⊎◌, inl, inr, Bool, true, false, ltb, Bool-cases, length, Text,
  Exception, str, Result, ok, raise, Result-cases,
}
use neuralhub.Agents.Contract.{
  AgentResult, ContractTexts, Decoding, decoded, invalid, raises, fallback_agent_result,
  max_repair_input_chars, parse_agent_result, repair_loop, coerce_agent_result,
}

-- The text of the error when a text gives no result.
pub data Rejected {A : Type 0} : Decoding A → Text → Type 0 where
  by_contract : (m : Text) → Rejected (invalid m) m
  by_exception : (x : Exception) → Rejected (raises x) (str x)

Decoding-cases :
    {A : Type 0} (d : Decoding A)
    → ((a : A) × (d ≡ decoded a))
      ⊎ ((m : Text) × (d ≡ invalid m))
      ⊎ ((e : Exception) × (d ≡ raises e))
Decoding-cases (decoded a) = inl (a, refl)
Decoding-cases (invalid m) = inr (inl (m, refl))
Decoding-cases (raises e) = inr (inr (e, refl))

module _ (texts : ContractTexts) (repair : ℕ → (candidate error : Text) → Result Text) where
  -- Attempts that failed, from the state of the first to the state after the last: how many attempts
  -- are left, the candidate and the last error.
  pub data Tried (n : ℕ) (candidate err : Text) : ℕ → Text → Text → Type 0 where
    start : Tried n candidate err n candidate err
    no_answer :
        (m : ℕ) (c why : Text) (x : Exception)
        → Tried n candidate err (suc m) c why
        → repair m c why ≡ raise x
        → Tried n candidate err m c (str x)
    no_result :
        (m : ℕ) (c why answer why' : Text)
        → Tried n candidate err (suc m) c why
        → repair m c why ≡ ok answer
        → Rejected (parse_agent_result texts answer) why'
        → Tried n candidate err m answer why'

  -- After an output that breaks the contract: the result of the first attempt whose answer gives one,
  -- or the fallback, when no attempt is left.
  pub data Repaired (n : ℕ) (raw_output message : Text) : AgentResult → Type 0 where
    from_answer :
        (m : ℕ) (c why answer : Text) (r : AgentResult)
        → Tried n raw_output message (suc m) c why
        → repair m c why ≡ ok answer
        → parse_agent_result texts answer ≡ decoded r
        → Repaired n raw_output message r
    exhausted :
        (c why : Text)
        → Tried n raw_output message 0 c why
        → Repaired n raw_output message (fallback_agent_result raw_output why)

  -- What becomes of an output.
  pub data IsFrom (has_model : Bool) (n : ℕ) (raw_output : Text) : Result AgentResult → Type 0 where
    from_output :
        (r : AgentResult)
        → parse_agent_result texts raw_output ≡ decoded r
        → IsFrom has_model n raw_output (ok r)
    escaped :
        (x : Exception)
        → parse_agent_result texts raw_output ≡ raises x
        → IsFrom has_model n raw_output (raise x)
    kept :
        (message err : Text)
        → parse_agent_result texts raw_output ≡ invalid message
        → (has_model ≡ false) ⊎ (ltb max_repair_input_chars (length raw_output) ≡ true)
        → IsFrom has_model n raw_output (ok (fallback_agent_result raw_output err))
    repaired :
        (message : Text) (r : AgentResult)
        → parse_agent_result texts raw_output ≡ invalid message
        → has_model ≡ true
        → ltb max_repair_input_chars (length raw_output) ≡ false
        → Repaired n raw_output message r
        → IsFrom has_model n raw_output (ok r)

  loop-Repaired :
      (n : ℕ) (raw_output message : Text) (m : ℕ) (c e : Text)
      → Tried n raw_output message m c e
      → Repaired n raw_output message (repair_loop texts repair m c e raw_output)
  unfolding repair_loop
  loop-Repaired n raw_output message zero c e t = exhausted c e t
  loop-Repaired n raw_output message (suc m) c e t = elim (Result-cases (repair m c e)) [
    | inr (x, h) ↦
        rw (repair_loop, h) (loop-Repaired n raw_output message m c (str x) (no_answer m c e x t h))
    | inl (answer, h) ↦ elim (Decoding-cases (parse_agent_result texts answer)) [
      | inl (r, p) ↦ rw (repair_loop, h, p) (from_answer m c e answer r t h p)
      | inr (inl (w, p)) ↦
          rw (repair_loop, h, p)
            (loop-Repaired n raw_output message m answer w
              (no_result m c e answer w t h (rw p (by_contract w))))
      | inr (inr (x, p)) ↦
          rw (repair_loop, h, p)
            (loop-Repaired n raw_output message m answer (str x)
              (no_result m c e answer (str x) t h (rw p (by_exception x))))
    ]
  ]

  -- What a sub-agent puts out is read as a result if it can be. An exception that is no breach of the
  -- contract escapes. After a breach, an output for which there is no model, or that is too long, is
  -- kept in a fallback marked as unparsed; any other one is repaired, by the first attempt whose answer
  -- can be read, where every attempt gets the last answer and the last error, and if all the attempts
  -- fail, the fallback keeps the output with the last error.
  pub coerce-IsFrom :
      (has_model : Bool) (max_repair_attempts : ℕ) (raw_output : Text)
      → IsFrom has_model max_repair_attempts raw_output
          (coerce_agent_result texts has_model repair max_repair_attempts raw_output)
  unfolding coerce_agent_result
  coerce-IsFrom has_model n raw_output =
      elim (Decoding-cases (parse_agent_result texts raw_output)) [
        | inl (r, p) ↦ rw (coerce_agent_result, p) (from_output r p)
        | inr (inr (e, p)) ↦ rw (coerce_agent_result, p) (escaped e p)
        | inr (inl (w, p)) ↦ elim (Bool-cases has_model) [
          | inr m ↦ rw (coerce_agent_result, p, m) (kept w w p (inl refl))
          | inl m ↦ elim (Bool-cases (ltb max_repair_input_chars (length raw_output))) [
            | inl l ↦ rw (coerce_agent_result, p, m, l) (kept w _ p (inr l))
            | inr l ↦
                rw (coerce_agent_result, p, m, l)
                  (repaired w (repair_loop texts repair n raw_output w raw_output) p refl l
                    (loop-Repaired n raw_output w n raw_output w start))
          ]
        ]
      ]
