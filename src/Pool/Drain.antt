-- ===== src/Pool/Drain.antt =====
-- The workers come to an end with what is queued, and then every task has run as often as `execute`
-- was called for it.
use universe.Base.{
  ℕ, zero, suc, ◌+◌, ◌*◌, ◌<◌, ◌≤◌, ltb, false, List, [], ◌∷◌, ◌++◌, length, ◌≡◌, refl, ap, ◌∙◌,
  arith, inl, inr, subst, append_assoc, Bool-cases, ltb→lt,
}
use universe.Pool.{
  Pool, Worker, ready, asleep, busy, count_asleep, Work, takes, sleeps, finishes, Working, done,
  more, stirred, Reachable, starts, steps, Step, works, executes, wakes, Notified, nobody, woken,
  handed_by, executed, create, start_threads,
}
use universe.Pool.Progress.{
  IsAwake, handed, count_asleep-le, count, count_busy, count-append, count_busy-append,
  Reachable-IsAwake, Working-IsAwake, create-IsAwake,
}

-- The steps that the workers still have: two for a queued task and its worker, one to end a task, one to
-- go to sleep.
abbrev pub weight : List Worker → ℕ
weight [] = 0
weight (ready ∷ ws) = 1 + weight ws
weight (busy t ∷ ws) = 2 + weight ws
weight (asleep ∷ ws) = weight ws

unfoldable pub effort : Pool → ℕ
effort p = 2 * length p.q + weight p.threads

unfoldable pub steps_of : {p p' : Pool} → Working p p' → ℕ
steps_of (done p) = 0
steps_of (more p p' p'' w ws) = suc (steps_of ws)
steps_of (stirred q before after ran p'' ws) = steps_of ws

-- The wake-ups of a run that nobody asked for.
unfoldable pub wakes_of : {p p' : Pool} → Working p p' → ℕ
wakes_of (done p) = 0
wakes_of (more p p' p'' w ws) = wakes_of ws
wakes_of (stirred q before after ran p'' ws) = suc (wakes_of ws)

weight-append : (xs ys : List Worker) → weight (xs ++ ys) ≡ weight xs + weight ys
weight-append [] ys = omega arith
weight-append (ready ∷ xs) ys = omega (arith, weight-append xs ys)
weight-append (asleep ∷ xs) ys = weight-append xs ys
weight-append (busy t ∷ xs) ys = omega (arith, weight-append xs ys)

pub effort-Work : (p p' : Pool) → Work p p' → effort p ≡ suc (effort p')
unfolding effort
effort-Work _ _ (takes t q before after ran) =
    omega (arith, weight-append before (ready ∷ after), weight-append before (busy t ∷ after))
effort-Work _ _ (sleeps before after ran) =
    omega (arith, weight-append before (ready ∷ after), weight-append before (asleep ∷ after))
effort-Work _ _ (finishes t q before after ran) =
    omega (arith, weight-append before (ready ∷ after), weight-append before (busy t ∷ after))

effort-wakes :
    (q : List ℕ) (before after : List Worker) (ran : List ℕ)
    → effort (record { q = q; threads = before ++ (ready ∷ after); ran = ran })
      ≡ suc (effort (record { q = q; threads = before ++ (asleep ∷ after); ran = ran }))
unfolding effort
effort-wakes q before after ran =
    omega (arith, weight-append before (ready ∷ after), weight-append before (asleep ∷ after))

-- While nothing new is handed to the pool, the steps that the workers take and what they still have
-- to do at the end come to what they had to do at the start and one for each wake-up that nobody
-- asked for: such a run has no more steps of workers than that.
pub steps_of-effort :
    (p p' : Pool) (run : Working p p') → steps_of run + effort p' ≡ effort p + wakes_of run
unfolding steps_of wakes_of
steps_of-effort _ _ (done p) = omega arith
steps_of-effort _ _ (more p p' p'' w ws) =
    omega (arith, effort-Work p p' w, steps_of-effort p' p'' ws)
steps_of-effort _ _ (stirred q before after ran p'' ws) =
    omega (arith, effort-wakes q before after ran, steps_of-effort _ p'' ws)

handed-Work : (t : ℕ) (p p' : Pool) → Work p p' → handed t p' ≡ handed t p
unfolding handed
handed-Work t _ _ (takes x q before after ran) =
    ground (
      arith,
      count_busy-append t before (ready ∷ after),
      count_busy-append t before (busy x ∷ after),
    )
handed-Work t _ _ (sleeps before after ran) =
    omega (
      arith,
      count_busy-append t before (ready ∷ after),
      count_busy-append t before (asleep ∷ after),
    )
handed-Work t _ _ (finishes x q before after ran) = ground (
  arith,
  count_busy-append t before (ready ∷ after),
  count_busy-append t before (busy x ∷ after),
  count-append t ran (x ∷ []),
)

-- A worker that wakes up was not busy, nor is it now.
handed-wakes :
    (t : ℕ) (q : List ℕ) (before after : List Worker) (ran : List ℕ)
    → handed t (record { q = q; threads = before ++ (ready ∷ after); ran = ran })
      ≡ handed t (record { q = q; threads = before ++ (asleep ∷ after); ran = ran })
unfolding handed
handed-wakes t q before after ran =
    omega (
      arith,
      count_busy-append t before (ready ∷ after),
      count_busy-append t before (asleep ∷ after),
    )

handed-Working : (t : ℕ) (p p' : Pool) → Working p p' → handed t p' ≡ handed t p
handed-Working t _ _ (done p) = refl
handed-Working t _ _ (more p p' p'' w ws) = handed-Working t p' p'' ws ∙ handed-Work t p p' w
handed-Working t _ _ (stirred q before after ran p'' ws) =
    handed-Working t _ p'' ws ∙ handed-wakes t q before after ran

count_busy-Notified :
    (t : ℕ) (ws ws' : List Worker) → Notified ws ws' → count_busy t ws' ≡ count_busy t ws
count_busy-Notified t _ _ (nobody ws none_asleep) = refl
count_busy-Notified t _ _ (woken before after) =
    omega (
      arith,
      count_busy-append t before (ready ∷ after),
      count_busy-append t before (asleep ∷ after),
    )

-- A step adds what it hands to the pool and loses nothing.
handed-Step :
    (t : ℕ) (p p' : Pool) (s : Step p p') → handed t p' ≡ count t (handed_by s) + handed t p
unfolding handed_by
handed-Step t _ _ (works p p' w) = omega (arith, handed-Work t p p' w)
handed-Step t _ _ (executes x q ran ws ws' n) =
    unfold handed in omega (arith, count-append t q (x ∷ []), count_busy-Notified t ws ws' n)
handed-Step t _ _ (wakes q before after ran) = omega (arith, handed-wakes t q before after ran)

handed-Reachable :
    (t : ℕ) (p0 p : Pool) (r : Reachable p0 p) → handed t p ≡ count t (executed r) + handed t p0
unfolding executed
handed-Reachable t p0 _ starts = omega arith
handed-Reachable t p0 _ (steps p p' r s) = omega (
  arith,
  handed-Step t p p' s,
  handed-Reachable t p0 p r,
  count-append t (handed_by s) (executed r),
)

none_busy : (t k : ℕ) → count_busy t (start_threads k) ≡ 0
unfolding start_threads
none_busy t zero = refl
none_busy t (suc k) = none_busy t k

handed-create : (t cpu_cores n : ℕ) → handed t (create cpu_cores n) ≡ 0
unfolding handed create
handed-create t cpu_cores n = ground (arith, none_busy t n, none_busy t cpu_cores)

-- A worker that is not asleep can always go on.
goes_on :
    (q ran : List ℕ) (before threads : List Worker)
    → count_asleep threads < length threads
    → (p' : Pool) × Work (record { q = q; threads = before ++ threads; ran = ran }) p'
goes_on q ran before [] h = absurd (omega arith)
goes_on [] ran before (ready ∷ ws) h = (_, sleeps before ws ran)
goes_on (t ∷ q) ran before (ready ∷ ws) h = (_, takes t q before ws ran)
goes_on q ran before (busy t ∷ ws) h = (_, finishes t q before ws ran)
goes_on q ran before (asleep ∷ ws) h =
    subst (λ threads. (p' : Pool) × Work (record { q = q; threads = threads; ran = ran }) p')
      (append_assoc before (asleep ∷ []) ws)
      (goes_on q ran (before ++ (asleep ∷ [])) ws (omega arith))

nobody_busy : (t : ℕ) (ws : List Worker) → length ws ≤ count_asleep ws → count_busy t ws ≡ 0
nobody_busy t [] h = refl
nobody_busy t (ready ∷ ws) h = absurd (omega (arith, count_asleep-le ws))
nobody_busy t (asleep ∷ ws) h = nobody_busy t ws (omega arith)
nobody_busy t (busy x ∷ ws) h = absurd (omega (arith, count_asleep-le ws))

no_tasks : (q : List ℕ) → length q ≤ 0 → q ≡ []
no_tasks [] h = refl
no_tasks (t ∷ q) h = absurd (omega arith)

-- From every state that a new pool comes to, where threads are asked for or the machine has cores,
-- whatever order the workers go on in, whoever wakes up unasked, and nothing new being handed to it:
-- when no worker can go on any more, the queue is empty and every task has run as often as `execute`
-- was called for it.
pub Working-drained :
    (cpu_cores n : ℕ) (p p' : Pool) (r : Reachable (create cpu_cores n) p)
    → 0 < cpu_cores + n
    → Working p p'
    → ((p'' : Pool) → ¬ Work p' p'')
    → (p'.q ≡ []) × ((t : ℕ) → count t p'.ran ≡ count t (executed r))
unfolding handed
Working-drained cpu_cores n p p' r cores run stuck =
    elim (Bool-cases (ltb (count_asleep p'.threads) (length p'.threads))) [
      | inl up ↦ absurd (stuck _ (goes_on p'.q p'.ran [] p'.threads (ltb→lt _ _ up)).1)
      | inr all_asleep ↦
          let k =
            Working-IsAwake p p' run
              (Reachable-IsAwake (create cpu_cores n) p (create-IsAwake cpu_cores n cores) r) in
          let empty = no_tasks p'.q (queue_empty p' k all_asleep) in
          (empty, λ t. all_ran t empty all_asleep)
    ]
  where
    queue_empty :
        (p' : Pool)
        → IsAwake p'
        → ltb (count_asleep p'.threads) (length p'.threads) ≡ false
        → length p'.q ≤ 0
    queue_empty p' k e = let a = k.awake in ground arith

    all_ran :
        (t : ℕ)
        → p'.q ≡ []
        → ltb (count_asleep p'.threads) (length p'.threads) ≡ false
        → count t p'.ran ≡ count t (executed r)
    all_ran t empty all_asleep =
        let kept : handed t p' ≡ handed t p = handed-Working t p p' run in
        let came : handed t p ≡ count t (executed r) + handed t (create cpu_cores n) =
          handed-Reachable t (create cpu_cores n) p r in
        let before : handed t (create cpu_cores n) ≡ 0 = handed-create t cpu_cores n in
        let idle : count_busy t p'.threads ≡ 0 = nobody_busy t p'.threads (ground arith) in
        let none_left : count t p'.q ≡ 0 = ap (count t) empty in
        omega (arith, kept, came, before, idle, none_left)
