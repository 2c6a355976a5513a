-- ===== src/Pool/Progress.antt =====
-- No wake-up is lost, and what is queued is run.
use universe.Base.{
  ℕ, zero, suc, ap, ◌+◌, ◌<◌, ◌≤◌, ◌==◌, if◌then◌else◌, List, [], ◌∷◌, ◌++◌, length, length-append,
  ◌≡◌, refl, arith,
}
use universe.Pool.{
  Pool, Worker, ready, asleep, busy, count_asleep, Notified, nobody, woken, Work, takes, sleeps,
  finishes, Step, works, executes, wakes, Working, done, more, stirred, create, start_threads,
  Reachable, starts, steps,
}

-- How often a task stands in a list.
abbrev pub count : ℕ → List ℕ → ℕ
count t [] = 0
count t (x ∷ xs) = if t == x then suc (count t xs) else count t xs

abbrev pub count_busy : ℕ → List Worker → ℕ
count_busy t [] = 0
count_busy t (busy x ∷ ws) = if t == x then suc (count_busy t ws) else count_busy t ws
count_busy t (ready ∷ ws) = count_busy t ws
count_busy t (asleep ∷ ws) = count_busy t ws

-- How often a task is with the pool: queued, in the hands of a worker, or run.
unfoldable pub handed : ℕ → Pool → ℕ
handed t p = count t p.q + count_busy t p.threads + count t p.ran

-- There are threads, and they do not all sleep while a task is queued.
pub record IsAwake (p : Pool) : Type 0 where
  pub some_threads : 0 < length p.threads
  pub awake : 0 < length p.q → count_asleep p.threads < length p.threads

count_asleep-append :
    (xs ys : List Worker) → count_asleep (xs ++ ys) ≡ count_asleep xs + count_asleep ys
count_asleep-append [] ys = omega arith
count_asleep-append (ready ∷ xs) ys = count_asleep-append xs ys
count_asleep-append (asleep ∷ xs) ys = omega (arith, count_asleep-append xs ys)
count_asleep-append (busy t ∷ xs) ys = count_asleep-append xs ys

pub count_asleep-le : (ws : List Worker) → count_asleep ws ≤ length ws
count_asleep-le [] = omega arith
count_asleep-le (ready ∷ ws) = omega (arith, count_asleep-le ws)
count_asleep-le (asleep ∷ ws) = omega (arith, count_asleep-le ws)
count_asleep-le (busy t ∷ ws) = omega (arith, count_asleep-le ws)

pub count-append : (t : ℕ) (xs ys : List ℕ) → count t (xs ++ ys) ≡ count t xs + count t ys
count-append t [] ys = omega arith
count-append t (x ∷ xs) ys = ground (arith, count-append t xs ys)

pub count_busy-append :
    (t : ℕ) (xs ys : List Worker) → count_busy t (xs ++ ys) ≡ count_busy t xs + count_busy t ys
count_busy-append t [] ys = omega arith
count_busy-append t (ready ∷ xs) ys = count_busy-append t xs ys
count_busy-append t (asleep ∷ xs) ys = count_busy-append t xs ys
count_busy-append t (busy x ∷ xs) ys = ground (arith, count_busy-append t xs ys)

-- Where a worker is not asleep, not all are.
not_all :
    (before after : List Worker) (w : Worker)
    → count_asleep (w ∷ after) ≡ count_asleep after
    → count_asleep (before ++ (w ∷ after)) < length (before ++ (w ∷ after))
not_all before after w e = omega (
  arith,
  e,
  count_asleep-append before (w ∷ after),
  length-append before (w ∷ after),
  count_asleep-le before,
  count_asleep-le after,
)

some_at : (before after : List Worker) (w : Worker) → 0 < length (before ++ (w ∷ after))
some_at before after w = omega (arith, length-append before (w ∷ after))

pub Work-IsAwake : (p p' : Pool) → Work p p' → IsAwake p → IsAwake p'
Work-IsAwake _ _ (takes t q before after ran) h = record {
  some_threads = some_at before after (busy t);
  awake = λ k. not_all before after (busy t) refl;
}
Work-IsAwake _ _ (sleeps before after ran) h = record {
  some_threads = some_at before after asleep;
  awake = λ k. absurd (omega arith);
}
Work-IsAwake _ _ (finishes t q before after ran) h = record {
  some_threads = some_at before after ready;
  awake = λ k. not_all before after ready refl;
}

Notified-awake :
    (ws ws' : List Worker) → Notified ws ws' → 0 < length ws → count_asleep ws' < length ws'
Notified-awake _ _ (nobody ws none_asleep) h = omega arith
Notified-awake _ _ (woken before after) h = not_all before after ready refl

Notified-some : (ws ws' : List Worker) → Notified ws ws' → 0 < length ws → 0 < length ws'
Notified-some _ _ (nobody ws none_asleep) h = h
Notified-some _ _ (woken before after) h = some_at before after ready

Step-IsAwake : (p p' : Pool) → Step p p' → IsAwake p → IsAwake p'
Step-IsAwake _ _ (works p p' w) h = Work-IsAwake p p' w h
Step-IsAwake _ _ (executes t q ran ws ws' n) h = record {
  some_threads = Notified-some ws ws' n h.some_threads;
  awake = λ k. Notified-awake ws ws' n h.some_threads;
}
Step-IsAwake _ _ (wakes q before after ran) h = record {
  some_threads = some_at before after ready;
  awake = λ k. not_all before after ready refl;
}

-- Whatever the order in which tasks come, are taken and end, and whoever is woken, the workers of a
-- pool that starts with some of them never all sleep while a task is queued: no wake-up is lost.
pub Reachable-IsAwake : (p0 p : Pool) → IsAwake p0 → Reachable p0 p → IsAwake p
Reachable-IsAwake p0 _ h starts = h
Reachable-IsAwake p0 _ h (steps p p' r s) = Step-IsAwake p p' s (Reachable-IsAwake p0 p h r)

wakes-IsAwake :
    (q : List ℕ) (before after : List Worker) (ran : List ℕ)
    → IsAwake (record { q = q; threads = before ++ (ready ∷ after); ran = ran })
wakes-IsAwake q before after ran = record {
  some_threads = some_at before after ready;
  awake = λ k. not_all before after ready refl;
}

pub Working-IsAwake : (p p' : Pool) → Working p p' → IsAwake p → IsAwake p'
Working-IsAwake _ _ (done p) h = h
Working-IsAwake _ _ (more p p' p'' w ws) h = Working-IsAwake p' p'' ws (Work-IsAwake p p' w h)
Working-IsAwake _ _ (stirred q before after ran p'' ws) h =
    Working-IsAwake _ p'' ws (wakes-IsAwake q before after ran)

length-start_threads : (n : ℕ) → length (start_threads n) ≡ n
unfolding start_threads
length-start_threads zero = refl
length-start_threads (suc n) = ap suc (length-start_threads n)

-- A new pool has threads where some are asked for or the machine has cores, and nothing is queued.
pub create-IsAwake : (cpu_cores n : ℕ) → 0 < cpu_cores + n → IsAwake (create cpu_cores n)
unfolding create
create-IsAwake cpu_cores n h = record {
  some_threads = ground (arith, length-start_threads n, length-start_threads cpu_cores);
  awake = λ k. absurd (omega arith);
}
