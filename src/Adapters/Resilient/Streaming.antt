-- ===== src/Adapters/Resilient/Streaming.antt =====
-- Whose chunks a stream yields.
use neuralhub.Base.{
  ℕ, ◌≡◌, refl, ◌⊎◌, inl, inr, Option, none, List, [], ◌∷◌, ◌++◌, arith, Elem, Text, List-cases,
}
use neuralhub.Adapters.Breaker.{CircuitBreaker}
use neuralhub.Adapters.Resilient.{
  LlmError, LlmCandidate, ResilientAdapterConfig, StreamTurn, StreamFlow, pass, close, stream_visit,
  finished, stream_from, stream,
}

module _ (show_int : ℕ → Text) (config : ResilientAdapterConfig) (primary : LlmCandidate) where
  -- The chunks are one turn's, or there are none; without an error that turn has finished.
  pub record FromOne (turns : List StreamTurn) (r : CircuitBreaker × List Text × Option LlmError)
      : Type 0 where
    pub source : (r.1 ≡ []) ⊎ ((t : StreamTurn) × Elem t turns × (r.1 ≡ t.chunks))
    pub complete :
        r.2 ≡ none → (t : StreamTurn) × Elem t turns × (t.ending ≡ finished) × (r.1 ≡ t.chunks)

  FromOne-cons :
      (t : StreamTurn) (ts : List StreamTurn) (r : CircuitBreaker × List Text × Option LlmError)
      → FromOne ts r
      → FromOne (t ∷ ts) r
  FromOne-cons t ts r f = record {
    source = elim f.source [ inl e ↦ inl e | inr (u, m, e) ↦ inr (u, inr m, e) ];
    complete = λ n. let (u, m, p, e) = f.complete n in (u, inr m, p, e);
  }

  visit-close :
      (t : StreamTurn) (b b' : CircuitBreaker) (chunks : List Text) (e : Option LlmError)
      → stream_visit show_int config primary t b ≡ close b' chunks e
      → (chunks ≡ t.chunks) × (e ≡ none → t.ending ≡ finished)
  unfolding stream_visit
  visit-close t b b' chunks e h = (ground arith, λ n. ground arith)

  visit-pass :
      (t : StreamTurn) (b b' : CircuitBreaker) (seen : List Text) (es : List LlmError)
      → stream_visit show_int config primary t b ≡ pass b' seen es
      → seen ≡ []
  unfolding stream_visit
  visit-pass t b b' seen es h = elim (List-cases t.chunks) [
    | inl e ↦ ground arith
    | inr (c, cs, e) ↦ ground arith
  ]

  StreamFlow-cases :
      (f : StreamFlow)
      → ((b : CircuitBreaker) × (seen : List Text) × (es : List LlmError) × (f ≡ pass b seen es))
        ⊎ ((b : CircuitBreaker) × (cs : List Text) × (e : Option LlmError) × (f ≡ close b cs e))
  StreamFlow-cases (pass b seen es) = inl (b, seen, es, refl)
  StreamFlow-cases (close b cs e) = inr (b, cs, e, refl)

  stream_from-FromOne :
      (turns : List StreamTurn) (errors : List LlmError) (b : CircuitBreaker)
      → FromOne turns (stream_from show_int config primary turns errors b)
  unfolding stream_from
  stream_from-FromOne [] errors b = record { source = inl refl; complete = λ n. cc }
  stream_from-FromOne (t ∷ ts) errors b =
      elim (StreamFlow-cases (stream_visit show_int config primary t b)) [
        | inl (b', seen, es, f) ↦
            let none_seen = visit-pass t b b' seen es f in
            rw (f, stream_from)
              (rw none_seen (FromOne-cons t ts _ (stream_from-FromOne ts (errors ++ es) b')))
        | inr (b', cs, e, f) ↦
            let (same, fin) = visit-close t b b' cs e f in
            rw (f, stream_from)
              (record {
                source = inr (t, inl refl, same);
                complete = λ n. (t, inl refl, fin n, same);
              })
      ]

  -- The chunks that the consumer of `stream` sees are those of one candidate, all that it sent and
  -- in order, or there are none; and a stream that ends without an error has the chunks of a
  -- candidate that finished.
  pub stream_one_source :
      (turns : List StreamTurn) (b : CircuitBreaker)
      → FromOne turns (stream show_int config primary turns b)
  unfolding stream
  stream_one_source turns b = stream_from-FromOne turns [] b
