-- ===== src/Adapters/Resilient/Fallback.antt =====
-- Which candidate answers a request.
use neuralhub.Base.{
  ℕ, ◌<◌, ◌≡◌, refl, ap, ◌∙◌, ◌⊎◌, inl, inr, false, Option, none, some, List, [], ◌∷◌, ◌++◌, arith,
  Text,
}
use neuralhub.Adapters.Breaker.{CircuitBreaker, is_open, record_success}
use neuralhub.Adapters.Resilient.{
  Answer, LlmError, LlmCandidate, ResilientAdapterConfig, LlmResponse, response, Turn, Outcome,
  answered, failed, Flow, continue, break, stop, visit, annotate_response, remaining, complete_from,
  complete, failed_error,
}

module _ (show_int : ℕ → Text) (config : ResilientAdapterConfig) (primary : LlmCandidate)
    (started : ℕ) where
  -- The breaker after turns that all leave the request to the next candidate, or `none` if one
  -- of them ends the loop.
  unfoldable pub passes : CircuitBreaker → List Turn → Option CircuitBreaker
  passes b [] = some b
  passes b (turn ∷ turns) = elim (visit show_int config primary started turn b) [
    | continue b' es ↦ passes b' turns
    | break ↦ none
    | stop b' o ↦ none
  ]

  -- The turn of a candidate that is asked and answers.
  pub record Wins (b : CircuitBreaker) (turn : Turn) (r : LlmResponse) : Type 0 where
    pub closed : is_open b turn.checked_at turn.candidate.provider_id ≡ false
    pub in_time : 0 < remaining show_int config primary started turn
    pub answers : turn.answer ≡ response r

  visit-Wins :
      (b : CircuitBreaker) (turn : Turn) (r : LlmResponse)
      → Wins b turn r
      → visit show_int config primary started turn b
        ≡ stop
            (record_success b turn.candidate.provider_id)
            (answered (annotate_response show_int config primary r turn.candidate))
  unfolding visit
  visit-Wins b turn r w = ground arith

  stop-Wins :
      (b b' : CircuitBreaker) (turn : Turn) (a : LlmResponse)
      → visit show_int config primary started turn b ≡ stop b' (answered a)
      → (r : LlmResponse) × Wins b turn r
        × (a ≡ annotate_response show_int config primary r turn.candidate)
        × (b' ≡ record_success b turn.candidate.provider_id)
  unfolding visit
  stop-Wins b b' turn a e = go turn.answer refl
    where
      go :
          (x : Answer)
          → turn.answer ≡ x
          → (r : LlmResponse) × Wins b turn r
            × (a ≡ annotate_response show_int config primary r turn.candidate)
            × (b' ≡ record_success b turn.candidate.provider_id)
      go (response r) f = (
        r,
        record { closed = ground arith; in_time = ground arith; answers = f },
        ground arith,
        ground arith,
      )
      go x f = absurd (ground arith)

  Flow-cases :
      (f : Flow)
      → ((b : CircuitBreaker) × (es : List LlmError) × (f ≡ continue b es))
        ⊎ (f ≡ break)
        ⊎ ((b : CircuitBreaker) × (o : Outcome) × (f ≡ stop b o))
  Flow-cases (continue b es) = inl (b, es, refl)
  Flow-cases break = inr (inl refl)
  Flow-cases (stop b o) = inr (inr (b, o, refl))

  falls_through :
      (xs ys : List Turn) (turn : Turn) (errors : List LlmError) (b b' : CircuitBreaker)
      (r : LlmResponse)
      → passes b xs ≡ some b'
      → Wins b' turn r
      → complete_from show_int config primary started (xs ++ turn ∷ ys) errors b ≡ (
        record_success b' turn.candidate.provider_id,
        answered (annotate_response show_int config primary r turn.candidate),
      )
  unfolding passes complete_from
  falls_through [] ys turn errors b b' r e w =
      let same : b ≡ b' = cc in rw (same, visit-Wins b' turn r w, complete_from)
  falls_through (x ∷ xs) ys turn errors b b' r e w =
      elim (Flow-cases (visit show_int config primary started x b)) [
        | inl (b₁, es, f) ↦
            rw (f, complete_from)
              (falls_through xs ys turn (errors ++ es) b₁ b' r (rw (f, passes) at e) w)
        | inr stops ↦ elim stops [
          | inl f ↦ let c : none ≡ some b' = rw (f, passes) at e in cc
          | inr (b₁, o, f) ↦ let c : none ≡ some b' = rw (f, passes) at e in cc
        ]
      ]

  pub record Winner (turns : List Turn) (b b₂ : CircuitBreaker) (a : LlmResponse) : Type 0 where
    pub before : List Turn
    pub turn : Turn
    pub after : List Turn
    pub breaker : CircuitBreaker
    pub given : LlmResponse
    pub split : turns ≡ before ++ turn ∷ after
    pub passed : passes b before ≡ some breaker
    pub wins : Wins breaker turn given
    pub annotated : a ≡ annotate_response show_int config primary given turn.candidate
    pub recorded : b₂ ≡ record_success breaker turn.candidate.provider_id

  complete_from-Winner :
      (turns : List Turn) (errors : List LlmError) (b b₂ : CircuitBreaker) (a : LlmResponse)
      → complete_from show_int config primary started turns errors b ≡ (b₂, answered a)
      → Winner turns b b₂ a
  unfolding complete_from passes
  complete_from-Winner [] errors b b₂ a e =
      let c : failed (failed_error errors) ≡ answered a = cc in absurd (cc)
  complete_from-Winner (x ∷ xs) errors b b₂ a e =
      elim (Flow-cases (visit show_int config primary started x b)) [
        | inl (b₁, es, f) ↦
            let w = complete_from-Winner xs (errors ++ es) b₁ b₂ a (rw (f, complete_from) at e) in
            record {
              before = x ∷ w.before;
              turn = w.turn;
              after = w.after;
              breaker = w.breaker;
              given = w.given;
              split = ap (λ l. x ∷ l) w.split;
              passed = rw (f, passes) w.passed;
              wins = w.wins;
              annotated = w.annotated;
              recorded = w.recorded;
            }
        | inr stops ↦ elim stops [
          | inl f ↦
              let e' : (b, failed (failed_error errors)) ≡ (b₂, answered a) =
                rw (f, complete_from) at e in
              let c : failed (failed_error errors) ≡ answered a =
                ap (λ (p : CircuitBreaker × Outcome). p.1) e' in
              cc
          | inr (b₁, o, f) ↦
              let e' : (b₁, o) ≡ (b₂, answered a) = rw (f, complete_from) at e in
              let eb : b₁ ≡ b₂ = ap (λ (p : CircuitBreaker × Outcome). p.0) e' in
              let eo : o ≡ answered a = ap (λ (p : CircuitBreaker × Outcome). p.1) e' in
              let (r, w, ea, er) =
                stop-Wins b b₂ x a (f ∙ (let g : stop b₁ o ≡ stop b₂ (answered a) = cc in g)) in
              record {
                before = [];
                turn = x;
                after = xs;
                breaker = b;
                given = r;
                split = refl;
                passed = refl;
                wins = w;
                annotated = ea;
                recorded = er;
              }
        ]
      ]

  -- The first candidate that is asked and answers decides: if all earlier turns leave the request
  -- to the next candidate, its answer is returned, annotated with the candidate, its success is
  -- recorded, and the later candidates are not asked.
  pub complete_first :
      (b b' : CircuitBreaker) (xs ys : List Turn) (turn : Turn) (r : LlmResponse)
      → passes b xs ≡ some b'
      → Wins b' turn r
      → complete show_int config primary started (xs ++ turn ∷ ys) b ≡ (
        record_success b' turn.candidate.provider_id,
        answered (annotate_response show_int config primary r turn.candidate),
      )
  unfolding complete
  complete_first b b' xs ys turn r e w = falls_through xs ys turn [] b b' r e w

  -- Every answer comes from such a candidate: one whose circuit was closed and who answered in time,
  -- after turns that all left the request to the next; it is annotated with the candidate, whose
  -- success is recorded.
  pub complete-Winner :
      (b b₂ : CircuitBreaker) (turns : List Turn) (a : LlmResponse)
      → complete show_int config primary started turns b ≡ (b₂, answered a)
      → Winner turns b b₂ a
  unfolding complete
  complete-Winner b b₂ turns a e = complete_from-Winner turns [] b b₂ a e
