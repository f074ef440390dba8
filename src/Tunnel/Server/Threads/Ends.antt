-- ===== src/Tunnel/Server/Threads/Ends.antt =====
-- However the goroutines are scheduled, `sessionsMu` does not keep all of them waiting.
use mylittleproxy.Base.{
  any-append, Bytes, ◌≡◌, refl, ap, true, false, List, [], ◌∷◌, ◌++◌, Bool-cases, inl, inr, arith,
  any, not, Bool,
}
use mylittleproxy.Tunnel.Server.Handshake.{Sign}
use mylittleproxy.Tunnel.Server.Threads.{Routine, frees}
use mylittleproxy.Tunnel.Server.Threads.System.{
  System, Move, turn, is_at_rest, is_blocked, holds_sessions, needs_sessions,
}

module _ {R : Type 0} where
  split_any :
      (f : Routine R → Bool) (xs : List (Routine R))
      → any f xs ≡ true
      → (before : List (Routine R)) × (pc : Routine R) × (after : List (Routine R)) × (xs
          ≡ before ++ pc ∷ after)
        × (f pc ≡ true)
  split_any f [] e = absurd (cc)
  split_any f (x ∷ xs) e = elim (Bool-cases (f x)) [
    | inl y ↦ ([], x, xs, refl, y)
    | inr n ↦
        let (before, pc, after, s, y) = split_any f xs (ground arith) in
        (x ∷ before, pc, after, ap (λ l. x ∷ l) s, y)
  ]

  holder_moves :
      (pc : Routine R)
      → holds_sessions pc ≡ true
      → (is_at_rest pc ≡ false) × (needs_sessions pc ≡ false)
  unfolding holds_sessions is_at_rest needs_sessions
  holder_moves (frees host hung id e role) h = (refl, refl)
  holder_moves _ h = absurd (cc)

  -- No deadlock: as long as some request is not answered, or some listener neither waits for a
  -- message nor has ended, some goroutine has a step that no mutex keeps from it.
  pub some_goroutine_moves :
      (sign : Sign) (p : System R)
      → any (λ pc. not (is_at_rest pc)) p.threads ≡ true
      → (id : Bytes) × (q : System R) × Move sign id p q
  unfolding is_blocked
  some_goroutine_moves sign p some_left = elim (Bool-cases (any holds_sessions p.threads)) [
    | inl y ↦
        let (before, pc, after, e, h) = split_any holds_sessions p.threads y in
        let (moves, free) = holder_moves pc h in
        (_, _, turn before after pc e moves (ground arith) refl)
    | inr n ↦
        let (before, pc, after, e, r) = split_any (λ pc. not (is_at_rest pc)) p.threads some_left in
        (
          _,
          _,
          turn before after pc e (ground arith)
              (ground (
                arith,
                ap (any holds_sessions) e,
                any-append holds_sessions before (pc ∷ after),
                any-append holds_sessions before after,
              ))
              refl,
        )
  ]
