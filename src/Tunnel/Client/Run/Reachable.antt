-- ===== src/Tunnel/Client/Run/Reachable.antt =====
-- What holds of a client in every state that it reaches, under any interleaving of `Start`, the
-- proxying goroutines, calls of `Close` and readers of `StartNotify`.
use mylittleproxy.Base.{Bytes, ◌≡◌, refl, subst, inr, true, false, some, arith, ok}
use mylittleproxy.Proto.{ConnectionConfig}
use mylittleproxy.Tunnel.Server.Handshake.{Sign}
use mylittleproxy.Tunnel.Client.{
  Client, ClientSettings, new_client, set_closed, emit, close_session,
}
use mylittleproxy.Tunnel.Client.Connect.{
  looping, backing_off, sleeping, fetching, connecting, opening, draining, ended, connect_stream,
}
use mylittleproxy.Tunnel.Client.Run.{
  Machine, Step, heads, backs_off, wakes, fetches, connects, greets, receives, breaks, drains, ends,
  finishes, closes, closes_session, closed, notifies, Reach, new, starts, steps, new_machine,
}
use mylittleproxy.Tunnel.Client.Run.Sound.{
  IsSound, Fits, Fits-beside, at-IsSound, receive-IsSound, finish_request-IsSound, close-IsSound,
  start-Keeps, loop_head-Keeps, back_off-Keeps, unless_closed-Keeps, fetch_settings-Keeps,
  connect_session-Keeps, on_opened-Keeps, disconnect-Keeps,
}

module _ (sign : Sign) (encode : ConnectionConfig → Bytes) where
  pub Step-IsSound : {m n : Machine} → Step sign encode m n → IsSound m → IsSound n
  unfolding connect_stream set_closed
  Step-IsSound {m} (heads last e) v =
      at-IsSound m (looping last) _ v e (λ f. loop_head-Keeps last m.client)
  Step-IsSound {m} (backs_off last pause e) v =
      at-IsSound m (backing_off last) _ v e (back_off-Keeps pause last m.client)
  Step-IsSound {m} (wakes last e) v =
      at-IsSound m (sleeping last) _ v e (unless_closed-Keeps last (fetching last) m.client)
  Step-IsSound {m} (fetches last io e) v =
      at-IsSound m (fetching last) _ v e (fetch_settings-Keeps io m.client)
  Step-IsSound {m} (connects i a k io e) v =
      at-IsSound m (connecting i a k) _ v e (connect_session-Keeps sign encode io i k m.client)
  Step-IsSound {m} (greets io e) v =
      at-IsSound m opening _ v e (on_opened-Keeps io.session_open io m.client)
  Step-IsSound {m} (receives msg stream e) v = receive-IsSound m msg stream v e
  Step-IsSound {m} (breaks x e) v = record {
    fits = subst (λ p. Fits p m.client) e v.fits;
    counted = v.counted;
  }
  Step-IsSound {m} (drains x e none_left) v =
      at-IsSound m (draining x) _ v e (λ f. disconnect-Keeps x m.client)
  Step-IsSound {m} (ends x e) v =
      at-IsSound m (ended x) _ v e
        (λ f. unless_closed-Keeps (some x) (looping (some x)) m.client (inr f))
  Step-IsSound {m} (finishes before after h e) v = finish_request-IsSound m before after h v e
  Step-IsSound {m} closes v = close-IsSound m v
  Step-IsSound {m} (closes_session n e) v = record {
    fits =
        Fits-beside m.pc m.client (emit (close_session m.client.session) m.client)
          (record { same_state = refl; same_session = refl; still_closed = λ y. y }) v.fits;
    counted = v.counted;
  }
  Step-IsSound {m} (closed n e) v = record {
    fits =
        Fits-beside m.pc m.client (set_closed true m.client)
          (record { same_state = refl; same_session = refl; still_closed = λ y. refl }) v.fits;
    counted = v.counted;
  }
  Step-IsSound {m} notifies v = record {
    fits =
        Fits-beside m.pc m.client (record m.client { start_notify = false })
          (record { same_state = refl; same_session = refl; still_closed = λ y. y }) v.fits;
    counted = v.counted;
  }

  new_client-IsSound :
      (config : ClientSettings) (c : Client) → new_client config ≡ ok c → IsSound (new_machine c)
  unfolding new_client
  new_client-IsSound config c e = record { fits = ground arith; counted = ground arith }

  Reach-keeps :
      {c : Client} {m : Machine} → IsSound (new_machine c) → Reach sign encode c m → IsSound m
  Reach-keeps v new = v
  Reach-keeps v (starts {m} r s) =
      at-IsSound m m.pc _ (Reach-keeps v r) refl (λ f. start-Keeps m.client)
  Reach-keeps v (steps r st) = Step-IsSound st (Reach-keeps v r)

  -- In every state that a new client reaches, by any interleaving of its goroutines and any calls of
  -- `Start`, one at a time, and of `Close`: the state that it reports fits where `Start` stands,
  -- with a session while the control connection is up; after `Start` has returned it is closed,
  -- and flagged so; and `reqWg` counts exactly the HTTP requests that are being proxied.
  pub Reach-IsSound :
      (config : ClientSettings) (c : Client) {m : Machine}
      → new_client config ≡ ok c
      → Reach sign encode c m
      → IsSound m
  Reach-IsSound config c e r = Reach-keeps (new_client-IsSound config c e) r
