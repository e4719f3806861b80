-- ===== src/Kernel/Rate.antt =====
-- src/bbagent/kernel/rate.py: the rate governor. Time is a number of ticks, and the rate stands for
-- the pause between two acquisitions, 1.0 / rps: interval rps is that pause in ticks, for a rate in
-- requests per thousand seconds and ticks of a nanosecond, rounded down.
pub mod Pacing
pub mod Slots
use bugbounty_agent.Base.{
  ℕ, zero, ◌+◌, ◌-◌, ◌*◌, ◌/◌, ◌^◌, ◌≤◌, ◌<◌, min, max, List, [], ◌∷◌, Option, none, some, leb, ltb,
  if◌then◌else◌, Result, ok, err,
}

-- ValueError
pub data Error : Type 0 where
  bad_rate bad_concurrency : Error

pub record RateGovernor : Type 0 where
  pub rps : ℕ
  pub max_concurrency : ℕ
  -- _next_free, and the slots of the semaphore that are free
  pub next_free : ℕ
  pub available : ℕ
  pub total_acquires : ℕ

unfoldable pub interval : ℕ → ℕ
interval rps = 10 ^ 12 / rps

-- RateGovernor.__init__, at a time of the clock
unfoldable pub init : ℕ → ℕ → ℕ → Result Error RateGovernor
init rps max_concurrency now =
    if leb rps 0
    then err bad_rate
    else if ltb max_concurrency 1
    then err bad_concurrency
    else ok (record {
      rps = rps;
      max_concurrency = max_concurrency;
      next_free = now;
      available = max_concurrency;
      total_acquires = 0;
    })

-- _pace at a time of the clock: the governor, and how long the caller sleeps
unfoldable pub pace : RateGovernor → ℕ → RateGovernor × ℕ
pace g now = (
  record g {
    next_free = max now g.next_free + interval g.rps;
    total_acquires = g.total_acquires + 1;
  },
  g.next_free - now,
)

-- _sem.acquire, which blocks (none) without a free slot, and _sem.release of a BoundedSemaphore,
-- which raises (none) when no slot is taken
unfoldable pub acquire : RateGovernor → Option RateGovernor
acquire g = if ltb 0 g.available then some (record g { available = g.available - 1 }) else none

unfoldable pub release : RateGovernor → Option RateGovernor
release g =
    if ltb g.available g.max_concurrency
    then some (record g { available = g.available + 1 })
    else none

-- narrowed, at a time of the clock
unfoldable pub narrowed : RateGovernor → ℕ → ℕ → ℕ → Result Error RateGovernor
unfolding init
narrowed g requests_per_second max_concurrency now =
    init (min g.rps requests_per_second) (min g.max_concurrency max_concurrency) now
