-- ===== src/Pool.antt =====
-- ThreadPool.cpp: a queue of tasks behind a mutex, and workers that take tasks from its front.
pub mod Progress
pub mod Drain
mod Tests
use universe.Base.{
  ℕ, zero, suc, ltb, ◌==◌, Bool, true, false, if◌then◌else◌, List, [], ◌∷◌, ◌++◌, ◌≡◌, Option, none,
  some,
}

-- What a worker is at: the loop's head, asleep in `_cond.wait`, or running a task.
pub data Worker : Type 0 where
  ready asleep : Worker
  busy : ℕ → Worker

abbrev pub count_asleep : List Worker → ℕ
count_asleep [] = 0
count_asleep (asleep ∷ ws) = suc (count_asleep ws)
count_asleep (ready ∷ ws) = count_asleep ws
count_asleep (busy t ∷ ws) = count_asleep ws

-- The tasks are numbers. `ran` holds the tasks that have ended, the newest last.
pub record Pool : Type 0 where
  pub q : List ℕ
  pub threads : List Worker
  pub ran : List ℕ

-- `ThreadPool::ThreadPool`; `n` is `int`, and 0 stands for what is not above it.
unfoldable pub start_threads : ℕ → List Worker
start_threads zero = []
start_threads (suc n) = ready ∷ start_threads n

unfoldable pub create : ℕ → ℕ → Pool
unfolding start_threads
create cpu_cores n = record {
  q = [];
  threads = start_threads (if ltb 0 n then n else cpu_cores);
  ran = [];
}

-- `notify_one` wakes one sleeper, if there is one: any of them.
pub data Notified : List Worker → List Worker → Type 0 where
  nobody : (ws : List Worker) → count_asleep ws ≡ 0 → Notified ws ws
  woken :
      (before after : List Worker)
      → Notified (before ++ (asleep ∷ after)) (before ++ (ready ∷ after))

-- What workers do, one at a time under the mutex: `get_task` takes the first task or waits, a task
-- ends.
pub data Work : Pool → Pool → Type 0 where
  takes :
      (t : ℕ) (q : List ℕ) (before after : List Worker) (ran : List ℕ)
      → Work
          (record { q = t ∷ q; threads = before ++ (ready ∷ after); ran = ran })
          (record { q = q; threads = before ++ (busy t ∷ after); ran = ran })
  sleeps :
      (before after : List Worker) (ran : List ℕ)
      → Work
          (record { q = []; threads = before ++ (ready ∷ after); ran = ran })
          (record { q = []; threads = before ++ (asleep ∷ after); ran = ran })
  finishes :
      (t : ℕ) (q : List ℕ) (before after : List Worker) (ran : List ℕ)
      → Work
          (record { q = q; threads = before ++ (busy t ∷ after); ran = ran })
          (record { q = q; threads = before ++ (ready ∷ after); ran = ran ++ (t ∷ []) })

-- `execute`, at any time, and a wake-up that nobody asked for.
pub data Step : Pool → Pool → Type 0 where
  works : (p p' : Pool) → Work p p' → Step p p'
  executes :
      (t : ℕ) (q ran : List ℕ) (threads threads' : List Worker)
      → Notified threads threads'
      → Step
          (record { q = q; threads = threads; ran = ran })
          (record { q = q ++ (t ∷ []); threads = threads'; ran = ran })
  wakes :
      (q : List ℕ) (before after : List Worker) (ran : List ℕ)
      → Step
          (record { q = q; threads = before ++ (asleep ∷ after); ran = ran })
          (record { q = q; threads = before ++ (ready ∷ after); ran = ran })

-- A run with nothing handed in: steps of the workers, and wake-ups that nobody asked for.
pub data Working : Pool → Pool → Type 0 where
  done : (p : Pool) → Working p p
  more : (p p' p'' : Pool) → Work p p' → Working p' p'' → Working p p''
  stirred :
      (q : List ℕ) (before after : List Worker) (ran : List ℕ) (p'' : Pool)
      → Working (record { q = q; threads = before ++ (ready ∷ after); ran = ran }) p''
      → Working (record { q = q; threads = before ++ (asleep ∷ after); ran = ran }) p''

pub data Reachable (p0 : Pool) : Pool → Type 0 where
  starts : Reachable p0 p0
  steps : (p p' : Pool) → Reachable p0 p → Step p p' → Reachable p0 p'

-- The task that a step hands to the pool, and those of a run, the newest first.
unfoldable pub handed_by : {p p' : Pool} → Step p p' → List ℕ
handed_by (works p p' w) = []
handed_by (executes t q ran threads threads' n) = t ∷ []
handed_by (wakes q before after ran) = []

unfoldable pub executed : {p0 p : Pool} → Reachable p0 p → List ℕ
unfolding handed_by
executed starts = []
executed (steps p p' r s) = handed_by s ++ executed r
