-- ===== src/Sessions/Numbers.antt =====
-- The numbers of the sessions stay one to one, and go over the wire.
use universe.Base.{
  ℕ, suc, ◌%◌, ◌^◌, ◌<◌, ◌≤◌, ◌≡◌, ◌≢◌, refl, sym, ap, ◌∙◌, ltb, Bool, true, false, List, [], ◌∷◌,
  ◌++◌, length, length-append, take, drop, arith, none, some, Option-cases, Bool-cases, ◌⊎◌, subst,
  inl, inr,
}
use universe.Base.Maps.{lookup, insert, lookup-insert, lookup-erase, lookup-insert_self, nat_key}
use universe.Reader.Words.{network_bytes, network_value-network_bytes, length-network_bytes}
use universe.StateMachine.Buffers.{append_buf, append_buf-none}
use universe.Tunnel.Pairs.{IsPaired, IsPaired-insert, IsPaired-erase}
use universe.Sessions.{Sessions, read, accept, unwatch, recv_session_id, get_session_id}

-- `_s2c` is the inverse of `_c2s`, and no number above the last one given out is in use.
pub record IsNumbered (s : Sessions) : Type 0 where
  pub paired : IsPaired s.c2s s.s2c
  pub below : (id : ℕ) → lookup id s.s2c ≢ none → id ≤ s.session_id

-- Accepting a client, whose socket is new, keeps the maps inverse to each other and every number in
-- use at most the last one given out, as long as fewer than 2 ^ 32 - 1 have been given out.
pub accept-IsNumbered :
    (client : ℕ) (s : Sessions)
    → IsNumbered s
    → suc s.session_id < 2 ^ 32
    → lookup client s.c2s ≡ none
    → IsNumbered (accept (some client) s)
unfolding accept
accept-IsNumbered client s h few new = elim (Bool-cases s.is_child) [
  | inl child ↦ rw child (record { paired = h.paired; below = h.below })
  | inr parent ↦
      rw (parent, small (suc s.session_id) few)
        (record {
          paired =
              IsPaired-insert client (suc s.session_id) s.c2s s.s2c new
                (fresh (Option-cases (lookup (suc s.session_id) s.s2c))) h.paired;
          below = λ j e.
              let k = h.below j in ground (arith, lookup-insert (suc s.session_id) j client s.s2c);
        })
]
  where
    small : (n : ℕ) → n < 2 ^ 32 → n % 2 ^ 32 ≡ n
    small n e = omega arith

    fresh :
        (lookup (suc s.session_id) s.s2c ≡ none)
          ⊎ ((c : ℕ) × (lookup (suc s.session_id) s.s2c ≡ some c))
        → lookup (suc s.session_id) s.s2c ≡ none
    fresh (inl e) = e
    fresh (inr (c, e)) = absurd (omega (arith, h.below (suc s.session_id) (λ k. cc)))

-- Where the maps between clients and sessions are inverse to each other and every number in use is at
-- most the last one given out, unwatching a descriptor keeps both, whether it was watched or not.
pub unwatch-IsNumbered :
    (fd : ℕ) (watched : Bool) (s : Sessions) → IsNumbered s → IsNumbered (unwatch fd watched s)
unfolding unwatch
unwatch-IsNumbered fd false s h = h
unwatch-IsNumbered fd true s h = elim (Option-cases (lookup fd s.c2s)) [
  | inl absent ↦ rw (absent, unwatch) (record { paired = h.paired; below = h.below })
  | inr (id, found) ↦
      rw (found, unwatch)
        (record {
          paired = IsPaired-erase fd id s.c2s s.s2c found h.paired;
          below = λ j e. let k = h.below j in ground (arith, lookup-erase id j s.s2c);
        })
]

take_all :
    (xs ys : List ℕ) (n : ℕ) → n ≡ length xs → (take n (xs ++ ys) ≡ xs) × (drop n (xs ++ ys) ≡ ys)
take_all xs ys n e = rw e (go xs)
  where
    go : (zs : List ℕ) → (take (length zs) (zs ++ ys) ≡ zs) × (drop (length zs) (zs ++ ys) ≡ ys)
    go [] = (refl, refl)
    go (z ∷ zs) = (ap (λ (t : List ℕ). z ∷ t) (go zs).0, (go zs).1)

-- The child reads the number that the parent sent ahead, knows the client by it, and is left with the
-- bytes that follow, where nothing was held back.
pub recv_session_id-network_bytes :
    (client id : ℕ) (rest : List ℕ) (s : Sessions)
    → id < 2 ^ 32
    → lookup client s.buf ≡ none
    → let (received, message, s') = recv_session_id client (network_bytes 4 id ++ rest) s in
      (received ≡ true)
      × (message ≡ rest)
      × (get_session_id client s' ≡ some id)
      × (lookup id s'.s2c ≡ some client)
recv_session_id-network_bytes client id rest s fits empty =
    subst
      (λ (p : Bool × List ℕ × Sessions).
        (p.0 ≡ true)
        × (p.1 ≡ rest)
        × (get_session_id client p.2 ≡ some id)
        × (lookup id p.2.s2c ≡ some client))
      (sym received)
      (
        refl,
        refl,
        unfold get_session_id in lookup-insert_self client id s.c2s,
        lookup-insert_self id client s.s2c,
      )
  where
    read_four : read 4 (network_bytes 4 id ++ rest) ≡ some (network_bytes 4 id, rest)
    read_four =
        let (front, back) =
          take_all (network_bytes 4 id) rest 4 (sym (length-network_bytes 4 id)) in
        unfold read in
        rw
          (
            long (length (network_bytes 4 id ++ rest))
                (omega (arith, length-append (network_bytes 4 id) rest, length-network_bytes 4 id)),
            front,
            back,
          )
          refl
      where
        long : (n : ℕ) → 4 ≤ n → ltb n 4 ≡ false
        long n e = ground arith

    received :
        recv_session_id client (network_bytes 4 id ++ rest) s
        ≡ (true, rest, record s { c2s = insert client id s.c2s; s2c = insert id client s.s2c })
    received =
        unfold recv_session_id in
        rw
          (
            ap (λ (p : Bool × List ℕ × List (ℕ × List ℕ)). read 4 p.1) nothing ∙ read_four,
            recv_session_id,
          )
          (λ i. (
            true,
            rest,
            record s {
              buf = (nothing i).2;
              c2s = insert client (network_value-network_bytes 4 id fits i) s.c2s;
              s2c = insert (network_value-network_bytes 4 id fits i) client s.s2c;
            },
          ))
      where
        nothing :
            append_buf client (network_bytes 4 id ++ rest) s.buf
            ≡ (false, network_bytes 4 id ++ rest, s.buf)
        nothing = append_buf-none client (network_bytes 4 id ++ rest) s.buf empty
