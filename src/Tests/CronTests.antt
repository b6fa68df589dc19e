-- ===== src/Tests/CronTests.antt =====
-- A tick of backend/core/s07_task_system/cron_scheduler.py with a job that is due and one that is not.
use neuralhub.Base.{
  ℕ, ◌+◌, ◌<◌, ◌≡◌, refl, true, false, Option, none, some, List, [], ◌∷◌, arith, Text, codes,
  text_eq, Exception, agent_error, value_error, Result, ok, raise, ok-injective,
}
use neuralhub.Cron.{CronEntry, CronScheduler, register, tick}
use neuralhub.Cron.Ticks.{IsTicked, tick-IsTicked}

-- Every expression means ten ticks later.
abbrev every_ten : Text → (base : ℕ) → Result ℕ
every_ten x base = ok (base + 10)

abbrev noted : Text → List Text → List Text × Option Exception
noted c w = (c ∷ w, some (value_error (codes "boom")))

abbrev entry : (name : Text) → ℕ → CronEntry Text
entry name t = record {
  job = record { name = name; expression = codes "*"; next_fire_at = t };
  callback = name;
}

abbrev two_jobs : CronScheduler Text
two_jobs = record {
  jobs = (codes "a", entry (codes "a") 5) ∷ (codes "b", entry (codes "b") 9) ∷ [];
  running = true;
}

after_tick : tick every_ten noted 7 two_jobs [] ≡ record {
  jobs = (codes "a", entry (codes "a") 17) ∷ (codes "b", entry (codes "b") 9) ∷ [];
  world = codes "a" ∷ [];
  failure = none;
}
unfolding tick
after_tick = refl

twice :
    register every_ten (codes "a") (codes "*") (codes "a") false 7 two_jobs
    ≡ raise (agent_error (codes "CRON_JOB_DUPLICATE") (codes "Cron job already registered: a"))
unfolding register text_eq
twice = refl

replaced :
    register every_ten (codes "a") (codes "*") (codes "a") true 7 two_jobs
    ≡ ok (record {
      jobs = (codes "a", entry (codes "a") 17) ∷ (codes "b", entry (codes "b") 9) ∷ [];
      running = true;
    })
unfolding register text_eq
replaced = refl

later_by_ten : (x : Text) (now t : ℕ) → every_ten x now ≡ ok t → now < t
later_by_ten x now t e = rw (← ok-injective e) (omega arith)

tick-IsTicked_example : IsTicked noted 7 two_jobs.jobs [] (tick every_ten noted 7 two_jobs [])
tick-IsTicked_example = tick-IsTicked every_ten noted later_by_ten 7 two_jobs [] (λ p h. (17, refl))
