-- ===== src/Cron/Ticks.antt =====
-- What one tick of the cron scheduler does to the jobs and to the world.
use neuralhub.Base.{
  ℕ, ◌<◌, ◌≡◌, refl, inl, inr, Bool, not, Option, none, List, [], ◌∷◌, map, arith, ltb, Bool-cases,
  Elem, keep, Text, Dict, Exception, Result, ok,
}
use neuralhub.Cron.{CronEntry, CronScheduler, Tick, fire_at, run_job, tick_from, tick}

module _ {C : Type 0} where
  -- The parts of an entry that never change.
  unfoldable pub fixed : Text × CronEntry C → Text × Text × Text × C
  fixed p = (p.0, p.1.job.name, p.1.job.expression, p.1.callback)

  -- A job is due.
  unfoldable pub is_due : ℕ → Text × CronEntry C → Bool
  is_due now p = not (ltb now p.1.job.next_fire_at)

  module _ {W : Type 0} (call : C → W → W × Option Exception) where
    unfoldable pub call_all : List (Text × CronEntry C) → W → W
    call_all [] w = w
    call_all (p ∷ ps) w = call_all ps (call p.1.callback w).0

-- The tick ends; the due jobs were called once each, in their order; afterwards no job is due, and
-- only the instants have changed.
pub record IsTicked {C W : Type 0} (call : C → W → W × Option Exception) (now : ℕ)
    (jobs : Dict (CronEntry C)) (w : W) (t : Tick C W) : Type 0 where
  pub ended : t.failure ≡ none
  pub called : t.world ≡ call_all call (keep (is_due now) jobs) w
  pub later : (p : Text × CronEntry C) → Elem p t.jobs → now < p.1.job.next_fire_at
  pub same : map fixed t.jobs ≡ map fixed jobs

module _ {C W : Type 0} (croniter : Text → (base : ℕ) → Result ℕ)
    (call : C → W → W × Option Exception)
    (advances : (x : Text) (now t : ℕ) → croniter x now ≡ ok t → now < t) where
  ticked :
      (now : ℕ) (jobs : Dict (CronEntry C)) (w : W)
      → ((p : Text × CronEntry C)
          → Elem p jobs
          → (t : ℕ) × (croniter p.1.job.expression now ≡ ok t))
      → IsTicked call now jobs w (tick_from croniter call now jobs w)
  unfolding tick_from keep is_due call_all fixed fire_at run_job
  ticked now [] w valid = record {
    ended = refl;
    called = refl;
    later = λ p h. elim h [ ];
    same = refl;
  }
  ticked now ((k, e) ∷ es) w valid = elim (Bool-cases (ltb now e.job.next_fire_at)) [
    | inl f ↦
        let rest = ticked now es w (λ p h. valid p (inr h)) in
        rw (tick_from, f)
          (record {
            ended = rest.ended;
            called = rw (keep, is_due, f) rest.called;
            later = λ p h. elim h [ inl q ↦ rw q (ground arith) | inr m ↦ rest.later p m ];
            same = rw rest.same;
          })
    | inr f ↦
        let (t, g) = valid (k, e) (inl refl) in
        let rest = ticked now es (run_job croniter call e w) (λ p h. valid p (inr h)) in
        rw (tick_from, f, g)
          (record {
            ended = rest.ended;
            called = rw (keep, is_due, f) rest.called;
            later = λ p h. elim h [
              | inl q ↦ rw q (advances e.job.expression now t g)
              | inr m ↦ rest.later p m
            ];
            same = rw rest.same;
          })
  ]

  -- If croniter's next instant is always later than its base, and it accepts the expression of every
  -- job at this instant, then a tick ends without exception, has called the callbacks of exactly the
  -- due jobs, once each and in their order, leaves no job due, and changes nothing else of a job.
  pub tick-IsTicked :
      (now : ℕ) (s : CronScheduler C) (w : W)
      → ((p : Text × CronEntry C)
          → Elem p s.jobs
          → (t : ℕ) × (croniter p.1.job.expression now ≡ ok t))
      → IsTicked call now s.jobs w (tick croniter call now s w)
  unfolding tick
  tick-IsTicked now s w valid = ticked now s.jobs w valid
