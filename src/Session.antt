-- ===== src/Session.antt =====
-- The loop that the message handlers share: `Soa::on_message`, `Http::on_message`,
-- `P::Client::Redis::on_message` and `P::Client::Soa::on_message` under
-- ideas/procpp/mixin_handler/Protocol parse packets from one reader until the input is used up,
-- remember the offset after the last whole packet, and catch the reader's exceptions.
pub mod Framing
pub mod Bounded
pub mod Chunks
pub mod Host
pub mod Delivery
pub mod Steps
pub mod Branches
use universe.Base.{ℕ, zero, suc, if◌then◌else◌}
use universe.Reader.{Reader, R, ok, throw, fatal, spent, ng, ag, at_end}

-- How the `try` block ends: the input is used up; the handler returned or broke out of the loop;
-- `catch` with `AG` and the `offset` variable; `catch` with `NG`; an exception nobody catches.
pub data Ending {ℓ} (S : Type ℓ) : Type ℓ where
  finished : S → Ending S
  returned : S → Ending S
  again : ℕ → S → Ending S
  refused : S → Ending S
  crashed : S → Ending S
  exhausted : Ending S

-- How the loop's body ends: at the loop's condition; by `return` or `break`; by an exception that is
-- no `ReaderException`.
pub data Exit : Type 0 where
  stay leave throws : Exit

-- `handle` is the loop's body after the parse.
module _ {A S : Type 0} (parse : R A) (handle : A → S → S × Exit) where
  -- `do { r = parse(s); offset = s.offset(); … } while (!s.end())`
  unfoldable pub serve_loop : ℕ → Reader → ℕ → S → Ending S
  serve_loop zero r offset w = exhausted
  serve_loop (suc fuel) r offset w = elim (parse r) [
    | ok (a, r') ↦
        let (w', exit) = handle a w in
        let rest = serve_loop fuel r' r'.offset w' in
        elim exit [
          | leave ↦ returned w'
          | throws ↦ crashed w'
          | stay ↦ if at_end r' then finished w' else rest
        ]
    | throw ag ↦ again offset w
    | throw ng ↦ refused w
    | fatal ↦ crashed w
    | spent ↦ exhausted
  ]
