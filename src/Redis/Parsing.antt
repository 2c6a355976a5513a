-- ===== src/Redis/Parsing.antt =====
-- P::Client::Redis::parse_response does not depend on its fuel where it has enough.
use universe.Base.{ℕ, zero, suc, refl, sym, ◌∙◌, [], Bool, true, false, if◌then◌else◌, ◌==◌}
use universe.Base.Text.{atol}
use universe.Reader.{R, pure, ◌>>=◌, read_byte}
use universe.Reader.Fuel.{Steady, Steady-refl, Steady-bind, Steady-head}
use universe.Redis.{
  reply_of, one_more, parse_loop, parse_elements, read_line, is_plain, element_count,
}

Steady-if :
    {A : Type 0} (b : Bool) (p p' q q' : R A)
    → Steady p p'
    → Steady q q'
    → Steady (if b then p else q) (if b then p' else q')
Steady-if true p p' q q' h k = h
Steady-if false p p' q q' h k = k

Steady-trans : {A : Type 0} (p q s : R A) → Steady p q → Steady q s → Steady p s
unfolding Steady
Steady-trans p q s h k r e = k r (λ u. e (sym (h r e) ∙ u)) ∙ h r e

module _ (max_size : ℕ) where
  mutual
    unfolding parse_loop Steady

    pub Steady-parse_loop : (f : ℕ) → Steady (parse_loop max_size f) (parse_loop max_size (suc f))
    Steady-parse_loop zero = λ r h. absurd (h refl)
    Steady-parse_loop (suc f) = Steady-bind read_byte _ _ (λ c.
        Steady-if (is_plain c) _ _ _ _ (Steady-refl _) (
          Steady-if (c == 36) _ _ _ _ (Steady-refl _) (
            Steady-if (c == 42) _ _ _ _
              (Steady-bind read_line _ _ (λ line.
                Steady-head _ _ (λ elements. pure (reply_of 42 [] elements))
                  (Steady-parse_elements f (element_count (atol line)))))
              (Steady-refl _))))

    Steady-parse_elements :
        (f n : ℕ) → Steady (parse_elements max_size f n) (parse_elements max_size (suc f) n)
    Steady-parse_elements f zero = Steady-refl _
    Steady-parse_elements zero (suc n) = λ r h. absurd (h refl)
    Steady-parse_elements (suc f) (suc n) =
        Steady-trans _ _ _
          (Steady-head _ _ (λ x. do xs ← parse_elements max_size f n; pure (one_more x xs))
            (Steady-parse_loop f))
          (Steady-bind (parse_loop max_size (suc f)) _ _
            (λ x. Steady-head _ _ (λ xs. pure (one_more x xs)) (Steady-parse_elements f n)))
