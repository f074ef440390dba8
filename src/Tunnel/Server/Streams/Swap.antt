-- ===== src/Tunnel/Server/Streams/Swap.antt =====
-- Two dials that overlap can get one another's stream.
use mylittleproxy.Base.{ℕ, ◌≡◌, refl, ap, [], ◌∷◌, ◌++◌}
use mylittleproxy.Tunnel.Server.Streams.{
  Pairing, accepts, opens, hands_over, asks, replies, Turns, here, next, IsQuiet, send_for,
}

-- From a state without dials in which the client listens, of any two dials each can end up with the stream that was opened for
-- the other, although neither times out or fails: the first sends its message first and accepts last.
pub dials_swap :
    (a b : ℕ) (p : Pairing)
    → IsQuiet p
    → (q : Pairing) × Turns p q
      × IsQuiet q
      × (q.got ≡ (p.got ++ (b, a) ∷ []) ++ (a, b) ∷ [])
      × (q.gone ≡ p.gone)
      × (q.failed ≡ p.failed)
dials_swap a b p v =
    let sent = send_for b (send_for a p) in
    let sent_all : Turns p sent = next (next here (asks a)) (asks b) in
    (
      _,
      next
          (next
            (next
              (next
                (next
                  (next sent_all (
                    replies (accepts (a ∷ []) [] b (ap (λ x. (x ++ a ∷ []) ++ b ∷ []) v.no_asked))))
                  (replies (accepts [] [] a refl)))
                (replies
                  (opens a (b ∷ []) v.hears (ap (λ x. (x ++ a ∷ []) ++ b ∷ []) v.no_messages))))
              (replies (opens b [] v.hears refl)))
            (replies (
              hands_over [] (a ∷ []) b a (b ∷ []) (ap (λ x. (x ++ b ∷ []) ++ a ∷ []) v.no_accepting)
                (ap (λ x. (x ++ a ∷ []) ++ b ∷ []) v.no_opened))))
          (replies (hands_over [] [] a b [] refl refl)),
      record {
        hears = v.hears;
        no_asked = refl;
        no_accepting = refl;
        no_messages = refl;
        no_opened = refl;
      },
      refl,
      refl,
      refl,
    )
