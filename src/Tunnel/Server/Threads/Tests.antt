-- ===== src/Tunnel/Server/Threads/Tests.antt =====
-- Goroutines on small inputs: alice's requests, and a listener of hers.
use mylittleproxy.Base.{
  Bytes, bytes, ◌≡◌, refl, ◌≢◌, true, none, some, [], ◌∷◌, lookup, insert, get_elem?, ok, ◌==◌,
  arith, eq_iff,
}
use mylittleproxy.Proto.{handshake_response}
use mylittleproxy.Tunnel.Errors.{io, no_host_for}
use mylittleproxy.Tunnel.Controls.{identify, new_control}
use mylittleproxy.Tunnel.VirtualHosts.{
  VirtualHosts, add_host, release_others, get_host, get_virtual_host,
}
use mylittleproxy.Tunnel.Server.{Server, write, add_session}
use mylittleproxy.Tunnel.Server.Handshake.{
  HandshakeIo, accepted, status_line, check_identifier_signature,
}
use mylittleproxy.Tunnel.Server.Connect.{
  taken_over, admit, header_get, check_identifier, check_host, convert_rules,
}
use mylittleproxy.Tunnel.Server.Release.{IsUntouched}
use mylittleproxy.Tunnel.Server.Conclude.{Succeeds}
use mylittleproxy.Tunnel.Server.Samples.{
  knock, settings, literal, alice, domain, key, sign, rules, decode, smooth, empty_server, hosts,
}
use mylittleproxy.Tunnel.Server.Tests.{hosts-IsWellFormed}
use mylittleproxy.Tunnel.Server.Threads.{
  arrive, adds, checks, looks, unregisters, releases, reports, starts, replied, listens, fails,
  advance,
}
use mylittleproxy.Tunnel.Server.Threads.System.{
  holds_sessions, System, Move, turn, Moves, turns, arrives, here, next, is_at_rest, is_blocked,
  needs_sessions, client_of,
}
use mylittleproxy.Tunnel.Server.Threads.Ends.{some_goroutine_moves}
use mylittleproxy.Tunnel.Server.Threads.Others.{IsSafe, here, next, OtherSteps-IsUntouched}
use mylittleproxy.Tunnel.Server.Threads.Orderly.{IsOrderly, Runs, Runs-IsOrderly}
use mylittleproxy.Tunnel.Server.Threads.Races.{
  handshakes_overlap, clean_up_overlaps, release_overlaps,
}

abbrev bob : Bytes
bob = bytes "bob"

-- The second handshake, over connection 4, session 5 and stream 6.
abbrev again : HandshakeIo
again = record smooth { hijack = ok 4; yamux_server = ok 5; accept = accepted 6 }

smooth-Succeeds : Succeeds smooth 1 2 3
smooth-Succeeds = record {
  can_hijack = refl;
  hijacks = refl;
  writes = refl;
  clears = refl;
  muxes = refl;
  accepts = refl;
  reads = refl;
  responds = refl;
}

again-Succeeds : Succeeds again 4 5 6
again-Succeeds = record {
  can_hijack = refl;
  hijacks = refl;
  writes = refl;
  clears = refl;
  muxes = refl;
  accepts = refl;
  reads = refl;
  responds = refl;
}

-- A listener that starts.
abbrev starting : System Bytes
starting = record { server = empty_server; threads = starts 0 ∷ [] }

some_goroutine_moves_example : (id : Bytes) × (q : System Bytes) × Move sign id starting q
unfolding is_at_rest
some_goroutine_moves_example = some_goroutine_moves sign starting refl

-- A request of alice's, before and after its `AddHost`.
abbrev asking : System Bytes
asking = record {
  server = empty_server;
  threads = adds smooth domain rules alice (sign alice key) ∷ [];
}

abbrev hosted : Server Bytes
hosted = record empty_server { virtual_hosts = hosts }

abbrev asked : System Bytes
asked = record { server = hosted; threads = checks smooth alice (sign alice key) ∷ [] }

bob-IsSafe : IsSafe bob asking
unfolding lookup get_host
bob-IsSafe = record {
  hosts = record { distinct = tt; one_host = λ h j x y p q same. absurd (cc) };
  spared = refl;
}

bob_is_other : bob ≢ alice
unfolding ◌==◌
bob_is_other e = ground (arith, eq_iff bob alice)

-- Alice's request comes to a new server, and its goroutine calls `AddHost`.
Runs-IsOrderly_example :
    IsOrderly (advance sign (arrive literal sign decode settings smooth knock) empty_server).1
unfolding arrive admit header_get check_identifier check_host convert_rules
    check_identifier_signature lookup is_at_rest is_blocked needs_sessions holds_sessions client_of
    ◌==◌
Runs-IsOrderly_example = Runs-IsOrderly literal sign decode settings none (
    Runs.next alice (Runs.next alice Runs.new (arrives smooth knock refl))
      (turns (turn [] [] (arrive literal sign decode settings smooth knock) refl refl refl refl)))

OtherSteps-IsUntouched_example : IsSafe bob asked × IsUntouched bob empty_server hosted
unfolding advance is_at_rest is_blocked needs_sessions client_of add_host release_others lookup
    insert
OtherSteps-IsUntouched_example =
    OtherSteps-IsUntouched literal sign decode bob {p = asking} {q = asked}
      (next alice bob_is_other here
        (turns (turn [] [] (adds smooth domain rules alice (sign alice key)) refl refl refl refl)))
      bob-IsSafe

no_control : lookup alice hosted.controls ≡ none
unfolding lookup
no_control = refl

alice_hosted :
    get_virtual_host alice hosts ≡ some (record { identifier = alice; rewrite = rules }, domain)
unfolding get_virtual_host ◌==◌
alice_hosted = refl

handshakes_overlap_example :
    (q : System Bytes) × Moves sign
      (record { server = hosted; threads = looks smooth alice ∷ looks again alice ∷ [] })
      10
      q
    × (q.threads ≡ replied taken_over ∷ replied taken_over ∷ starts 0 ∷ starts 1 ∷ [])
    × (lookup alice q.server.controls ≡ some 1)
    × (lookup alice q.server.sessions ≡ some (some 5))
    × (get_elem? q.server.heap 0 ≡ some (identify alice (new_control 3)))
    × (q.server.effects
        ≡ write 1 status_line
          ∷ write 3 handshake_response
          ∷ write 4 status_line
          ∷ write 6 handshake_response
          ∷ [])
handshakes_overlap_example =
    handshakes_overlap sign smooth again alice hosted 1 4 2 5 3 6 smooth-Succeeds again-Succeeds
      no_control

clean_up_overlaps_example :
    (q : System Bytes) × Moves sign
      (record {
        server = hosted;
        threads = unregisters alice (io []) listens ∷ looks smooth alice ∷ [];
      })
      8
      q
    × (q.threads ≡ reports none alice (io []) listens ∷ replied taken_over ∷ starts 0 ∷ [])
    × (lookup alice q.server.controls ≡ some 0)
    × (get_elem? q.server.heap 0 ≡ some (identify alice (new_control 3)))
    × (lookup alice q.server.sessions ≡ none)
    × (get_host alice q.server.virtual_hosts ≡ none)
clean_up_overlaps_example =
    clean_up_overlaps sign smooth alice domain (io []) hosted _ 1 2 3 smooth-Succeeds
      hosts-IsWellFormed alice_hosted

abbrev other_domain : Bytes
other_domain = bytes "b.org"

abbrev moved_hosts : VirtualHosts Bytes
moved_hosts = (other_domain, record { identifier = alice; rewrite = rules }) ∷ []

abbrev served : Server Bytes
served = add_session alice (some 2) hosted

alice_served : lookup alice served.sessions ≡ some (some 2)
unfolding lookup insert ◌==◌ add_session
alice_served = refl

domains_differ : other_domain ≢ domain
unfolding ◌==◌
domains_differ e = ground (arith, eq_iff other_domain domain)

alice_moves : add_host other_domain alice rules hosts ≡ ok moved_hosts
unfolding add_host release_others lookup insert ◌==◌
alice_moves = refl

bob_signs : check_identifier_signature sign bob key (sign bob key) ≡ true
unfolding check_identifier_signature ◌==◌
bob_signs = refl

release_overlaps_example :
    (u : VirtualHosts Bytes) × (add_host domain bob rules moved_hosts ≡ ok u)
    × (q : System Bytes) × Moves sign
        (record {
          server = served;
          threads =
              releases none alice (io []) listens
              ∷ adds smooth other_domain rules alice (sign alice key)
              ∷ adds again domain rules bob (sign bob key)
              ∷ [];
        })
        5
        q
    × (q.threads
        ≡ reports none alice (io []) listens
          ∷ checks smooth alice (sign alice key)
          ∷ fails bob (no_host_for bob)
          ∷ [])
    × (get_host bob q.server.virtual_hosts ≡ none)
unfolding add_session
release_overlaps_example =
    release_overlaps sign smooth again alice bob domain other_domain (sign alice key) (sign bob key)
      (io []) listens none served _ rules rules (some 2) moved_hosts hosts-IsWellFormed alice_served
      alice_hosted domains_differ alice_moves bob_signs
