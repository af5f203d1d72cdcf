-- ===== src/Schedule.antt =====
-- common/utils/calc_schedule.py: the next run of a schedule. `croniter` is the library that reads a
-- cron expression: its next time after a reference, or `none` where it raises.
use autohub.Base.{ℕ, ◌+◌, ◌*◌, ◌≡◌, ◌<◌, Option, none, some, if◌then◌else◌, ◌==◌, arith}

-- An expression with its text; the empty text is false in Python.
pub data Cron : Type 0 where
  empty_text : Cron
  expression : ℕ → Cron

-- What `calc_next_run` returns or raises.
pub data NextRun : Type 0 where
  at_time : ℕ → NextRun
  cron_error value_error : NextRun

abbrev pub from_cron : Option ℕ → NextRun
from_cron none = cron_error
from_cron (some t) = at_time t

-- The fixed delay in seconds, where 0 counts as absent.
abbrev pub from_interval : Option ℕ → (now : ℕ) → NextRun
from_interval none now = value_error
from_interval (some n) now = if n == 0 then value_error else at_time (now + n * 1_000_000)

module _ (croniter : ℕ → ℕ → Option ℕ) where
  unfoldable pub calc_next_run : Option Cron → (interval_seconds : Option ℕ) → (now : ℕ) → NextRun
  calc_next_run (some (expression e)) interval now = from_cron (croniter e now)
  calc_next_run (some empty_text) interval now = from_interval interval now
  calc_next_run none interval now = from_interval interval now

  interval_later :
      (interval : Option ℕ) (now t : ℕ) → from_interval interval now ≡ at_time t → now < t
  interval_later none now t h = cc
  interval_later (some n) now t h = ground arith

  -- Where the cron library only gives times after its reference, a schedule's next run is after the
  -- reference, from whichever setting it is computed.
  pub calc_next_run_later :
      ((e now t : ℕ) → croniter e now ≡ some t → now < t)
      → (cron : Option Cron) (interval : Option ℕ) (now t : ℕ)
      → calc_next_run cron interval now ≡ at_time t
      → now < t
  unfolding calc_next_run
  calc_next_run_later later (some (expression e)) interval now t h =
      later e now t (from_cron_time (croniter e now) h)
    where
      from_cron_time : (o : Option ℕ) → from_cron o ≡ at_time t → o ≡ some t
      from_cron_time none h = cc
      from_cron_time (some u) h = cc
  calc_next_run_later later (some empty_text) interval now t h = interval_later interval now t h
  calc_next_run_later later none interval now t h = interval_later interval now t h
