-- ===== src/Tunnel/Server/Streams/Tests.antt =====
-- Two dials, 1 and 2, on one session.
use mylittleproxy.Base.{◌≡◌, refl, true, [], ◌∷◌, ◌++◌}
use mylittleproxy.Tunnel.Server.Streams.{Pairing, Turns, IsQuiet}
use mylittleproxy.Tunnel.Server.Streams.Swap.{dials_swap}

abbrev quiet : Pairing
quiet = record {
  listening = true;
  asks = [];
  asked = [];
  accepting = [];
  gone = [];
  failed = [];
  messages = [];
  opened = [];
  got = [];
}

quiet-IsQuiet : IsQuiet quiet
quiet-IsQuiet = record {
  hears = refl;
  no_asked = refl;
  no_accepting = refl;
  no_messages = refl;
  no_opened = refl;
}

dials_swap_example :
    (q : Pairing) × Turns quiet q
    × IsQuiet q
    × (q.got ≡ (quiet.got ++ (2, 1) ∷ []) ++ (1, 2) ∷ [])
    × (q.gone ≡ quiet.gone)
    × (q.failed ≡ quiet.failed)
dials_swap_example = dials_swap 1 2 quiet quiet-IsQuiet
