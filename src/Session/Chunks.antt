-- ===== src/Session/Chunks.antt =====
-- Input that comes in pieces: the loop over a piece, then over what it left and the next piece, does
-- what the loop does over both pieces at once.
use universe.Base.{
  ℕ, zero, suc, ◌+◌, ◌<◌, ◌≡◌, ◌≢◌, refl, sym, ap, ◌∙◌, List, [], ◌∷◌, ◌++◌, length, arith,
  length-append, append_assoc, drop, drop-append,
}
use universe.Base.{if◌then◌else◌}
use universe.Reader.{Reader, R, ok, throw, fatal, ng, ag, at_end}
use universe.Reader.Local.{at, Reading, reads, refuses, waits, breaks, starves, Local}
use universe.Session.{
  Ending, finished, returned, again, refused, crashed, exhausted, serve_loop, Exit, stay, leave,
  throws,
}
use universe.Session.Framing.{IsFraming, Grows, Ends, reads_whole, whole_of}

-- The ending with the bytes that are left in place of the offset.
pub data Outcome (S : Type 0) : Type 0 where
  drained : S → Outcome S
  left_loop : S → Outcome S
  holds : List ℕ → S → Outcome S
  rejected : S → Outcome S
  aborted : S → Outcome S
  ran_out : Outcome S

module _ {S : Type 0} where
  abbrev pub outcome : List ℕ → Ending S → Outcome S
  outcome str (finished w) = drained w
  outcome str (returned w) = left_loop w
  outcome str (again offset w) = holds (drop offset str) w
  outcome str (refused w) = rejected w
  outcome str (crashed w) = aborted w
  outcome str exhausted = ran_out

at_end-at : (front rest : List ℕ) → at_end (at front rest) ≡ at_end (at [] rest)
unfolding at_end
at_end-at front rest = ground (arith, length-append front rest)

module _ {A S : Type 0} (parse : R A) (handle : A → S → S × Exit) (framing : IsFraming parse) where
  -- The loop seen from the bytes that it stands before.
  unfoldable pub serve : ℕ → List ℕ → S → Outcome S
  serve fuel xs w = outcome xs (serve_loop parse handle fuel (at [] xs) 0 w)

  -- One round, by what the parser returns.
  abbrev next : ℕ → S × Exit → Reader → Ending S
  next fuel (w', exit) r' = elim exit [
    | leave ↦ returned w'
    | throws ↦ crashed w'
    | stay ↦ if at_end r' then finished w' else serve_loop parse handle fuel r' r'.offset w'
  ]

  round_ok :
      (fuel : ℕ) (r : Reader) (offset : ℕ) (w : S) (a : A) (r' : Reader)
      → parse r ≡ ok (a, r')
      → serve_loop parse handle (suc fuel) r offset w ≡ next fuel (handle a w) r'
  unfolding serve_loop
  round_ok fuel r offset w a r' e = rw (e, serve_loop)

  round_ag :
      (fuel : ℕ) (r : Reader) (offset : ℕ) (w : S)
      → parse r ≡ throw ag
      → serve_loop parse handle (suc fuel) r offset w ≡ again offset w
  unfolding serve_loop
  round_ag fuel r offset w e = rw (e, serve_loop)

  round_ng :
      (fuel : ℕ) (r : Reader) (offset : ℕ) (w : S)
      → parse r ≡ throw ng
      → serve_loop parse handle (suc fuel) r offset w ≡ refused w
  unfolding serve_loop
  round_ng fuel r offset w e = rw (e, serve_loop)

  round_fatal :
      (fuel : ℕ) (r : Reader) (offset : ℕ) (w : S)
      → parse r ≡ fatal
      → serve_loop parse handle (suc fuel) r offset w ≡ crashed w
  unfolding serve_loop
  round_fatal fuel r offset w e = rw (e, serve_loop)

  abbrev Anywhere : ℕ → Type 0
  Anywhere fuel =
      (front xs : List ℕ) (w : S)
      → outcome (front ++ xs) (serve_loop parse handle fuel (at front xs) (length front) w)
        ≡ serve fuel xs w

  -- What a round that read `used` comes to, for `m` the body's result.
  abbrev pub go_on : ℕ → List ℕ → S × Exit → Outcome S
  go_on fuel rest (w', exit) = elim exit [
    | leave ↦ left_loop w'
    | throws ↦ aborted w'
    | stay ↦ if at_end (at [] rest) then drained w' else serve fuel rest w'
  ]

  outcome-next :
      (fuel : ℕ)
      → Anywhere fuel
      → (front used rest : List ℕ) (m : S × Exit)
      → outcome (front ++ (used ++ rest)) (next fuel m (at (front ++ used) rest))
        ≡ go_on fuel rest m
  outcome-next fuel ih front used rest (w', leave) = refl
  outcome-next fuel ih front used rest (w', throws) = refl
  outcome-next fuel ih front used rest (w', stay) = rw (at_end-at (front ++ used) rest) (
      ground (
        arith,
        ap
              (λ (t : List ℕ). outcome t (
                serve_loop parse handle fuel (at (front ++ used) rest) (length (front ++ used)) w'))
              (sym (append_assoc front used rest))
            ∙ ih (front ++ used) rest w',
      ))

  Anywhere-suc : (fuel : ℕ) → Anywhere fuel → Anywhere (suc fuel)
  unfolding serve Local
  Anywhere-suc fuel ih front xs w = go (framing.local xs)
    where
      go :
          Reading parse xs
          → outcome
              (front ++ xs)
              (serve_loop parse handle (suc fuel) (at front xs) (length front) w)
            ≡ serve (suc fuel) xs w
      go (reads a used rest e h) =
          rw
            (
              round_ok fuel (at front xs) (length front) w a _
                  (reads_whole parse xs a used rest h front),
              round_ok fuel (at [] xs) 0 w a _ (reads_whole parse xs a used rest h []),
              e,
            )
            (outcome-next fuel ih front used rest (handle a w)
              ∙ sym (outcome-next fuel ih [] used rest (handle a w)))
      go (refuses h) = rw (
        round_ng fuel (at front xs) (length front) w (whole_of parse xs front h),
        round_ng fuel (at [] xs) 0 w (whole_of parse xs [] h),
      )
      go (waits h) = rw (
        round_ag fuel (at front xs) (length front) w (h front),
        round_ag fuel (at [] xs) 0 w (h []),
        drop-append front xs,
      )
      go (breaks h) = rw (
        round_fatal fuel (at front xs) (length front) w (whole_of parse xs front h),
        round_fatal fuel (at [] xs) 0 w (whole_of parse xs [] h),
      )
      go (starves h) = absurd (unfold Ends in framing.ends front xs (whole_of parse xs front h))

  -- Nothing depends on what has been read before.
  serve-Anywhere : (fuel : ℕ) → Anywhere fuel
  unfolding serve serve_loop
  serve-Anywhere zero front xs w = refl
  serve-Anywhere (suc fuel) front xs w = Anywhere-suc fuel (serve-Anywhere fuel) front xs w

  -- The same by the reading of the bytes.
  serve_reads :
      (fuel : ℕ) (xs : List ℕ) (w : S) (a : A) (used rest : List ℕ)
      → xs ≡ used ++ rest
      → parse (at [] xs) ≡ ok (a, at used rest)
      → serve (suc fuel) xs w ≡ go_on fuel rest (handle a w)
  unfolding serve
  serve_reads fuel xs w a used rest e h =
      rw (round_ok fuel (at [] xs) 0 w a _ h, e)
        (outcome-next fuel (serve-Anywhere fuel) [] used rest (handle a w))

  serve_waits :
      (fuel : ℕ) (xs : List ℕ) (w : S)
      → parse (at [] xs) ≡ throw ag
      → serve (suc fuel) xs w ≡ holds xs w
  unfolding serve
  serve_waits fuel xs w h = rw (round_ag fuel (at [] xs) 0 w h)

  serve_refuses :
      (fuel : ℕ) (xs : List ℕ) (w : S)
      → parse (at [] xs) ≡ throw ng
      → serve (suc fuel) xs w ≡ rejected w
  unfolding serve
  serve_refuses fuel xs w h = rw (round_ng fuel (at [] xs) 0 w h)

  serve_breaks :
      (fuel : ℕ) (xs : List ℕ) (w : S)
      → parse (at [] xs) ≡ fatal
      → serve (suc fuel) xs w ≡ aborted w
  unfolding serve
  serve_breaks fuel xs w h = rw (round_fatal fuel (at [] xs) 0 w h)

  shorter :
      (xs used rest : List ℕ) (a : A)
      → xs ≡ used ++ rest
      → parse (at [] xs) ≡ ok (a, at used rest)
      → length rest < length xs
  unfolding Grows
  shorter xs used rest a e h =
      omega (arith, ap length e, length-append used rest, framing.grows [] xs a (at used rest) h)

  go_on_fuel :
      (f g : ℕ) (rest : List ℕ) (m : S × Exit)
      → ((w : S) → serve f rest w ≡ serve g rest w)
      → go_on f rest m ≡ go_on g rest m
  go_on_fuel f g rest (w', leave) h = refl
  go_on_fuel f g rest (w', throws) h = refl
  go_on_fuel f g rest (w', stay) h = rw (h w')

  -- Any fuel above the number of bytes will do.
  serve_fuel :
      (f g : ℕ) (xs : List ℕ) (w : S) → length xs < f → length xs < g → serve f xs w ≡ serve g xs w
  serve_fuel zero g xs w hf hg = absurd (omega arith)
  serve_fuel (suc f) zero xs w hf hg = absurd (omega arith)
  serve_fuel (suc f) (suc g) xs w hf hg =
      go (unfold Local in framing.local xs)
        (λ rest w' h. serve_fuel f g rest w' (omega arith) (omega arith))
    where
      go :
          Reading parse xs
          → ((rest : List ℕ) (w' : S) → length rest < length xs → serve f rest w' ≡ serve g rest w')
          → serve (suc f) xs w ≡ serve (suc g) xs w
      go (reads a used rest e h) ih =
          let here = reads_whole parse xs a used rest h [] in
          serve_reads f xs w a used rest e here
          ∙ go_on_fuel f g rest (handle a w) (λ w'. ih rest w' (shorter xs used rest a e here))
          ∙ sym (serve_reads g xs w a used rest e here)
      go (refuses h) ih = rw (
        serve_refuses f xs w (whole_of parse xs [] h),
        serve_refuses g xs w (whole_of parse xs [] h),
      )
      go (waits h) ih = rw (serve_waits f xs w (h []), serve_waits g xs w (h []))
      go (breaks h) ih = rw (
        serve_breaks f xs w (whole_of parse xs [] h),
        serve_breaks g xs w (whole_of parse xs [] h),
      )
      go (starves h) ih = absurd (unfold Ends in framing.ends [] xs (whole_of parse xs [] h))

  -- The loop with fuel enough for its input.
  unfoldable pub serve_all : List ℕ → S → Outcome S
  serve_all xs w = serve (suc (length xs)) xs w

  -- What the next piece does after an outcome.
  abbrev pub resume : List ℕ → Outcome S → Outcome S
  resume ys (drained w) = if at_end (at [] ys) then drained w else serve_all ys w
  resume ys (left_loop w) = left_loop w
  resume ys (holds rest w) = serve_all (rest ++ ys) w
  resume ys (rejected w) = rejected w
  resume ys (aborted w) = aborted w
  resume ys ran_out = ran_out

  go_on-append :
      (f : ℕ) (rest ys : List ℕ) (m : S × Exit)
      → length rest + length ys < f
      → ((w : S) → serve f (rest ++ ys) w ≡ resume ys (serve f rest w))
      → go_on f (rest ++ ys) m ≡ resume ys (go_on f rest m)
  go_on-append f rest ys (w', leave) h ih = refl
  go_on-append f rest ys (w', throws) h ih = refl
  go_on-append f [] ys (w', stay) h ih =
      unfold at_end serve_all in ground (arith, serve_fuel f (suc (length ys)) ys w')
  go_on-append f (c ∷ cs) ys (w', stay) h ih = unfold at_end in ground (arith, ih w')

  serve-append :
      (f : ℕ) (xs ys : List ℕ) (w : S)
      → length xs + length ys < f
      → serve f (xs ++ ys) w ≡ resume ys (serve f xs w)
  serve-append zero xs ys w h = absurd (omega arith)
  serve-append (suc f) xs ys w h =
      go (unfold Local in framing.local xs) (λ rest w' k. serve-append f rest ys w' (omega arith))
    where
      go :
          Reading parse xs
          → ((rest : List ℕ) (w' : S)
              → length rest < length xs
              → serve f (rest ++ ys) w' ≡ resume ys (serve f rest w'))
          → serve (suc f) (xs ++ ys) w ≡ resume ys (serve (suc f) xs w)
      go (reads a used rest e k) ih =
          let here = reads_whole parse xs a used rest k [] in
          rw (serve_reads f xs w a used rest e here) (
            serve_reads f (xs ++ ys) w a used (rest ++ ys)
              (ap (λ (t : List ℕ). t ++ ys) e ∙ append_assoc used rest ys) (k [] ys)
            ∙ go_on-append f rest ys (handle a w) (omega (arith, shorter xs used rest a e here))
                (λ w'. ih rest w' (shorter xs used rest a e here)))
      go (refuses k) ih =
          rw (serve_refuses f xs w (whole_of parse xs [] k), serve_refuses f (xs ++ ys) w (k [] ys))
      go (waits k) ih = rw (serve_waits f xs w (k [])) (
          unfold serve_all in
          serve_fuel (suc f) (suc (length (xs ++ ys))) (xs ++ ys) w
            (omega (arith, length-append xs ys)) (omega arith))
      go (breaks k) ih =
          rw (serve_breaks f xs w (whole_of parse xs [] k), serve_breaks f (xs ++ ys) w (k [] ys))
      go (starves k) ih = absurd (unfold Ends in framing.ends [] xs (whole_of parse xs [] k))

  -- A piece and then the next one, or both at once.
  pub serve_all-append :
      (xs ys : List ℕ) (w : S) → serve_all (xs ++ ys) w ≡ resume ys (serve_all xs w)
  serve_all-append xs ys w =
      unfold serve_all in
      serve-append (suc (length (xs ++ ys))) xs ys w (omega (arith, length-append xs ys))
      ∙ ap (resume ys) (
          serve_fuel (suc (length (xs ++ ys))) (suc (length xs)) xs w
            (omega (arith, length-append xs ys)) (omega arith))

  not_exhausted :
      (f : ℕ) (rest : List ℕ) (m : S × Exit)
      → ((w : S) → serve f rest w ≢ ran_out)
      → go_on f rest m ≢ ran_out
  not_exhausted f rest (w', leave) ih h = cc
  not_exhausted f rest (w', throws) ih h = cc
  not_exhausted f rest (w', stay) ih h = ground (arith, ih w')

  -- The loop ends: each round reads a byte at least.
  pub serve-ne-ran_out : (f : ℕ) (xs : List ℕ) (w : S) → length xs < f → serve f xs w ≢ ran_out
  serve-ne-ran_out zero xs w h = absurd (omega arith)
  serve-ne-ran_out (suc f) xs w h =
      go (unfold Local in framing.local xs) (λ rest w' k. serve-ne-ran_out f rest w' (omega arith))
    where
      go :
          Reading parse xs
          → ((rest : List ℕ) (w' : S) → length rest < length xs → serve f rest w' ≢ ran_out)
          → serve (suc f) xs w ≢ ran_out
      go (reads a used rest e k) ih =
          let here = reads_whole parse xs a used rest k [] in
          rw (serve_reads f xs w a used rest e here)
            (not_exhausted f rest (handle a w) (λ w'. ih rest w' (shorter xs used rest a e here)))
      go (refuses k) ih = rw (serve_refuses f xs w (whole_of parse xs [] k)) (λ e. cc)
      go (waits k) ih = rw (serve_waits f xs w (k [])) (λ e. cc)
      go (breaks k) ih = rw (serve_breaks f xs w (whole_of parse xs [] k)) (λ e. cc)
      go (starves k) ih = absurd (unfold Ends in framing.ends [] xs (whole_of parse xs [] k))
