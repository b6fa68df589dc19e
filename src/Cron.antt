-- ===== src/Cron.antt =====
-- backend/core/s07_task_system/cron_scheduler.py: jobs with the instants at which they are due next.
-- The clock is the argument `now`, the `croniter` package a parameter, and `call` is what a callback
-- does to the world and the exception that it may raise. A callback leaves the jobs alone. The task
-- that repeats `tick` is the event loop's.
pub mod Ticks
use neuralhub.Base.{
  ℕ, Bool, true, false, not, ◌&&◌, Option, none, some, List, [], ◌∷◌, ◌++◌, map, ltb, if◌then◌else◌,
  Text, codes, Dict, get, put, is_some, Exception, agent_error, value_error, key_error, other, str,
  Result, ok, raise,
}

pub record CronJob : Type 0 where
  pub name : Text
  pub expression : Text
  pub next_fire_at : ℕ

pub record CronEntry (C : Type 0) : Type 0 where
  pub job : CronJob
  pub callback : C

pub record CronScheduler (C : Type 0) : Type 0 where
  pub jobs : Dict (CronEntry C)
  pub running : Bool

-- What a tick leaves: the jobs, the world, and the exception that ended it early.
pub record Tick (C W : Type 0) : Type 0 where
  pub jobs : Dict (CronEntry C)
  pub world : W
  pub failure : Option Exception

-- `except AgentError: raise` and `except Exception`.
unfoldable pub register_error : Exception → Exception
unfolding str
register_error (agent_error code message) = agent_error code message
register_error (value_error m) = agent_error (codes "CRON_REGISTER_ERROR") (str (value_error m))
register_error (key_error k) = agent_error (codes "CRON_REGISTER_ERROR") (str (key_error k))
register_error (other m) = agent_error (codes "CRON_REGISTER_ERROR") (str (other m))

module _ {C : Type 0} where
  -- `list_jobs`.
  unfoldable pub list_jobs : CronScheduler C → List CronJob
  list_jobs s = map (λ p. p.1.job) s.jobs

  -- `entry.job.next_fire_at = …`.
  unfoldable pub fire_at : ℕ → CronEntry C → CronEntry C
  fire_at t e = record {
    job = record { name = e.job.name; expression = e.job.expression; next_fire_at = t };
    callback = e.callback;
  }

module _ {C : Type 0} (croniter : Text → (base : ℕ) → Result ℕ) where
  unfoldable pub register :
      (name expression : Text)
      → C
      → (replace : Bool) → (now : ℕ) → CronScheduler C
      → Result (CronScheduler C)
  unfolding get put register_error
  register name expression callback replace now s =
      if is_some (get name s.jobs) && not replace
      then raise
          (agent_error (codes "CRON_JOB_DUPLICATE") (codes "Cron job already registered: " ++ name))
      else elim (croniter expression now) [
        | raise e ↦ raise (register_error e)
        | ok t ↦ ok (record {
          jobs =
              put name
                (record {
                  job = record { name = name; expression = expression; next_fire_at = t };
                  callback = callback;
                })
                s.jobs;
          running = s.running;
        })
      ]

  module _ {W : Type 0} (call : C → W → W × Option Exception) where
    -- An exception of the callback is logged and dropped.
    unfoldable pub run_job : CronEntry C → W → W
    run_job e w = (call e.callback w).0

    unfoldable pub tick_from : (now : ℕ) → Dict (CronEntry C) → W → Tick C W
    unfolding run_job fire_at
    tick_from now [] w = record { jobs = []; world = w; failure = none }
    tick_from now ((k, e) ∷ es) w = elim (ltb now e.job.next_fire_at) [
      | true ↦
          let rest = tick_from now es w in
          record { jobs = (k, e) ∷ rest.jobs; world = rest.world; failure = rest.failure }
      | false ↦ elim (croniter e.job.expression now) [
        | raise x ↦ record { jobs = (k, e) ∷ es; world = run_job e w; failure = some x }
        | ok t ↦
            let rest = tick_from now es (run_job e w) in
            record {
              jobs = (k, fire_at t e) ∷ rest.jobs;
              world = rest.world;
              failure = rest.failure;
            }
      ]
    ]

    unfoldable pub tick : (now : ℕ) → CronScheduler C → W → Tick C W
    unfolding tick_from
    tick now s w = tick_from now s.jobs w
