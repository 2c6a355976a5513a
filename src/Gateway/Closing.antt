-- ===== src/Gateway/Closing.antt =====
-- HttpGateway::close_remote and what it calls back come to an end.
use universe.Base.{
  ℕ, zero, suc, ◌≤◌, ◌<◌, ◌≡◌, refl, arith, List, [], ◌∷◌, length, some, inl, inr, Option-cases,
}
use universe.Base.Maps.{lookup, erase, nat_key}
use universe.Gateway.{Gateway, standing, dialing, close_one, close_remote_within}

length-erase : {V : Type 0} (k : ℕ) (m : List (ℕ × V)) → length (erase k m) ≤ length m
unfolding erase
length-erase k [] = omega arith
length-erase k ((j, v) ∷ m) = ground (arith, length-erase k m)

length-erase-lt :
    {V : Type 0} (k : ℕ) (v : V) (m : List (ℕ × V))
    → lookup k m ≡ some v
    → length (erase k m) < length m
unfolding lookup erase
length-erase-lt k v [] e = cc
length-erase-lt k v ((j, w) ∷ m) e = ground (arith, length-erase k m, length-erase-lt k v m)

-- A round for each socket that is watched is enough.
pub close_remote_within-enough :
    (fuel remote : ℕ) (g : Gateway)
    → length g.remotes ≤ fuel
    → close_remote_within (suc fuel) remote g ≡ close_remote_within fuel remote g
unfolding close_remote_within close_one
close_remote_within-enough zero remote g h = elim (Option-cases (lookup remote g.remotes)) [
  | inl e ↦ rw (e, close_one) refl
  | inr (watch, e) ↦ absurd (omega (arith, length-erase-lt remote watch g.remotes e))
]
close_remote_within-enough (suc fuel) remote g h = elim (Option-cases (lookup remote g.remotes)) [
  | inl e ↦ rw (e, close_one) refl
  | inr (standing c, e) ↦ rw (e, close_one) refl
  | inr (dialing c, e) ↦ elim (Option-cases (lookup c g.c2r)) [
    | inl f ↦ rw (e, close_one) (rw (f, close_one) refl)
    | inr (next_fd, f) ↦
        rw (e, close_one)
          (rw (f, close_one)
            (close_remote_within-enough fuel next_fd _
              (omega (arith, length-erase-lt remote (dialing c) g.remotes e))))
  ]
]
