-- ===== src/Pool/Tests.antt =====
-- A pool of two workers that all sleep, and a task that comes.
use universe.Base.{ℕ, suc, List, [], ◌∷◌, ◌+◌, ◌≡◌, refl, arith, ltb→lt}
use universe.Pool.{
  Pool, Worker, ready, asleep, busy, Work, takes, sleeps, finishes, woken, executes, Working, done,
  more, stirred, works, executed, handed_by, start_threads, Reachable, starts, steps, create,
}
use universe.Pool.Progress.{IsAwake, create-IsAwake, count, Reachable-IsAwake}
use universe.Pool.Drain.{steps_of, wakes_of, effort, steps_of-effort, effort-Work, Working-drained}

abbrev with_threads : List ℕ → List Worker → List ℕ → Pool
with_threads q threads ran = record { q = q; threads = threads; ran = ran }

abbrev both_asleep : Pool
both_asleep = with_threads [] (asleep ∷ asleep ∷ []) []

abbrev one_queued : Pool
one_queued = with_threads (7 ∷ []) (asleep ∷ ready ∷ []) []

abbrev all_done : Pool
all_done = with_threads [] (asleep ∷ asleep ∷ []) (7 ∷ [])

two_workers : create 8 2 ≡ with_threads [] (ready ∷ ready ∷ []) []
unfolding create
two_workers = refl

abbrev fresh : Pool
fresh = with_threads [] (ready ∷ ready ∷ []) []

abbrev one_asleep : Pool
one_asleep = with_threads [] (ready ∷ asleep ∷ []) []

-- Both workers go to sleep, then a task comes.
one_queued-reached : Reachable (create 8 2) one_queued
unfolding create start_threads
one_queued-reached =
    steps both_asleep one_queued
      (steps one_asleep both_asleep
        (steps fresh one_asleep starts (works fresh one_asleep (sleeps (ready ∷ []) [] [])))
        (works one_asleep both_asleep (sleeps [] (asleep ∷ []) [])))
      (executes 7 [] [] (asleep ∷ asleep ∷ []) (asleep ∷ ready ∷ []) (woken (asleep ∷ []) []))

fresh-IsAwake : IsAwake (create 8 2)
fresh-IsAwake = create-IsAwake 8 2 (ltb→lt _ _ refl)

-- The first worker wakes up unasked and goes back to sleep.
to_the_end : Working one_queued all_done
to_the_end =
    more one_queued (with_threads [] (asleep ∷ busy 7 ∷ []) []) all_done
      (takes 7 [] (asleep ∷ []) [] [])
      (stirred [] [] (busy 7 ∷ []) [] all_done (
        more (with_threads [] (ready ∷ busy 7 ∷ []) []) (with_threads [] (asleep ∷ busy 7 ∷ []) [])
          all_done (sleeps [] (busy 7 ∷ []) [])
          (more (with_threads [] (asleep ∷ busy 7 ∷ []) [])
            (with_threads [] (asleep ∷ ready ∷ []) (7 ∷ [])) all_done
            (finishes 7 [] (asleep ∷ []) [] [])
            (more (with_threads [] (asleep ∷ ready ∷ []) (7 ∷ [])) all_done all_done
              (sleeps (asleep ∷ []) [] (7 ∷ [])) (done all_done)))))

all_done-stuck : (p : Pool) → ¬ Work all_done p
unfolding effort
all_done-stuck p w = let e : 0 ≡ suc (effort p) = effort-Work all_done p w in absurd (omega arith)

Reachable-IsAwake_example : IsAwake one_queued
Reachable-IsAwake_example =
    Reachable-IsAwake (create 8 2) one_queued fresh-IsAwake one_queued-reached

steps_of-effort_example :
    steps_of to_the_end + effort all_done ≡ effort one_queued + wakes_of to_the_end
steps_of-effort_example = steps_of-effort one_queued all_done to_the_end

one_task : executed one_queued-reached ≡ 7 ∷ []
unfolding executed handed_by one_queued-reached
one_task = refl

Working-drained_example :
    (all_done.q ≡ []) × ((t : ℕ) → count t all_done.ran ≡ count t (executed one_queued-reached))
Working-drained_example =
    Working-drained 8 2 one_queued all_done one_queued-reached (ltb→lt _ _ refl) to_the_end
      all_done-stuck
