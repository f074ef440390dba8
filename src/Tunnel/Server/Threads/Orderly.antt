-- ===== src/Tunnel/Server/Threads/Orderly.antt =====
-- What holds of the tables of tunnel/server.go however its goroutines interleave.
use mylittleproxy.Base.{
  ◌∙◌, ℕ, Bytes, ◌≡◌, refl, true, Option, none, some, arith, ◌==◌, eq_iff, lookup, lookup-insert,
  lookup-delete, get_elem?, length, Option-cases, Bool-cases, Result-cases, nat_eq, Result, ok, err,
  inl, inr, [], ◌∷◌,
}
use mylittleproxy.Proto.{ConnectionConfig}
use mylittleproxy.Tunnel.ClientState.{Channel}
use mylittleproxy.Tunnel.Errors.{Error}
use mylittleproxy.Tunnel.Regexp.{Regexp}
use mylittleproxy.Tunnel.Controls.{Control, mark_closed, identify, new_control}
use mylittleproxy.Tunnel.Controls.Heap.{
  get_elem?-update, get_elem?-append_old, get_elem?-append_new,
}
use mylittleproxy.Tunnel.VirtualHosts.{add_host, get_host}
use mylittleproxy.Tunnel.VirtualHosts.Find.{IsWellFormed}
use mylittleproxy.Tunnel.VirtualHosts.AddHost.{add_host-IsWellFormed, delete_host-IsWellFormed}
use mylittleproxy.Tunnel.Server.{
  Server, Settings, initial, add_session, add_control, delete_control, close_control, change_state,
}
use mylittleproxy.Tunnel.Server.Handshake.{
  Sign, HandshakeIo, check_identifier_signature, open_control_stream,
}
use mylittleproxy.Tunnel.Server.Threads.{
  Routine, adds, checks, looks, upgrades, adds_session, greets, registers, closes, unregisters,
  releases, frees, reports, announces, starts, hails, waits, replied, ended, answers, listens, Role,
  hang_up, advance, take_over, after_greeting, release, report,
}
use mylittleproxy.Tunnel.Server.Threads.System.{System, turn, Step, turns, arrives, breaks}

mark_closed-keeps :
    (c : Control)
    → ((mark_closed c).identifier ≡ c.identifier) × ((mark_closed c).has_enc ≡ c.has_enc)
mark_closed-keeps c = elim (Option-cases c.nc) [
  | inl n ↦ (ground arith, ground arith)
  | inr (nc, n) ↦ (ground arith, ground arith)
]

module _ {R : Type 0} where
  -- Each identifier has one host at most, and each registered control is the client's own.
  pub record IsOrderly (s : Server R) : Type 0 where
    pub hosts : IsWellFormed s.virtual_hosts
    pub named :
        (id : Bytes) (p : ℕ)
        → lookup id s.controls ≡ some p
        → (c : Control) × (get_elem? s.heap p ≡ some c) × (c.identifier ≡ id) × (c.has_enc ≡ true)

  abbrev StaysOrderly : Routine R × Server R → Type 0
  StaysOrderly (pc, s) = IsOrderly s

  take_over-IsOrderly :
      (h : HandshakeIo) (id : Bytes) (s : Server R) → IsOrderly s → StaysOrderly (take_over h id s)
  unfolding take_over
  take_over-IsOrderly h id s v = elim (Bool-cases h.is_hijacker) [
    | inr a ↦ rw (a, take_over) v
    | inl a ↦ elim (Result-cases h.hijack) [
      | inr (e, b) ↦ rw (a, b, take_over) v
      | inl (conn, b) ↦ elim (Option-cases h.write_connected) [
        | inr (e, c) ↦ rw (a, b, c, take_over) v
        | inl c ↦ elim (Option-cases h.set_deadline) [
          | inr (e, d) ↦ rw (a, b, c, d, take_over) (record { hosts = v.hosts; named = v.named })
          | inl d ↦ elim (Result-cases h.yamux_server) [
            | inr (e, f) ↦
                rw (a, b, c, d, f, take_over) (record { hosts = v.hosts; named = v.named })
            | inl (session, f) ↦
                rw (a, b, c, d, f, take_over) (record { hosts = v.hosts; named = v.named })
          ]
        ]
      ]
    ]
  ]

  after_greeting-IsOrderly :
      (id : Bytes) (conn : ℕ) (r : Option ℕ × Result Error ℕ) (s : Server R)
      → IsOrderly s
      → StaysOrderly (after_greeting id conn r s)
  unfolding after_greeting
  after_greeting-IsOrderly id conn (opened, ok stream) s v = record {
    hosts = v.hosts;
    named = v.named;
  }
  after_greeting-IsOrderly id conn (opened, err e) s v = record { hosts = v.hosts; named = v.named }

  release-IsOrderly :
      (hung : Option ℕ) (id : Bytes) (e : Error) (role : Role) (s : Server R)
      → IsOrderly s
      → StaysOrderly (release hung id e role s)
  unfolding release
  release-IsOrderly hung id e role s v = elim (Option-cases (lookup id s.sessions)) [
    | inl l ↦ rw (l, release) v
    | inr (session, l) ↦ rw (l, release) (record { hosts = v.hosts; named = v.named })
  ]

  report-IsOrderly :
      (role : Role) (id : Bytes) (e : Error) (hung : Option ℕ) (s : Server R)
      → IsOrderly s
      → StaysOrderly (report role id e (hang_up hung s))
  unfolding report
  report-IsOrderly answers [] e none s v = v
  report-IsOrderly answers [] e (some conn) s v = record { hosts = v.hosts; named = v.named }
  report-IsOrderly answers (c ∷ cs) e none s v = record { hosts = v.hosts; named = v.named }
  report-IsOrderly answers (c ∷ cs) e (some conn) s v = record { hosts = v.hosts; named = v.named }
  report-IsOrderly listens id e none s v = record { hosts = v.hosts; named = v.named }
  report-IsOrderly listens id e (some conn) s v = record { hosts = v.hosts; named = v.named }

  add_control-IsOrderly :
      (id : Bytes) (stream : ℕ) (s : Server R) → IsOrderly s → IsOrderly (add_control id stream s)
  unfolding add_control
  add_control-IsOrderly id stream s v = record {
    hosts = v.hosts;
    named = λ j p e. elim (Bool-cases (id == j)) [
      | inl same ↦ (
        identify id (new_control stream),
        ground (
          arith,
          lookup-insert id j (length s.heap) s.controls,
          get_elem?-append_new s.heap (identify id (new_control stream)),
        ),
        (eq_iff id j).0 same,
        refl,
      )
      | inr differ ↦
          let (c, at, n, u) =
            v.named j p (ground (arith, lookup-insert id j (length s.heap) s.controls)) in
          (c, get_elem?-append_old s.heap _ p c at, n, u)
    ];
  }

  close_control-IsOrderly : (ct : ℕ) (s : Server R) → IsOrderly s → IsOrderly (close_control ct s)
  unfolding close_control
  close_control-IsOrderly ct s v = record {
    hosts = v.hosts;
    named = λ j p e.
        let (c, at, n, u) = v.named j p e in
        let (same_name, same_enc) = mark_closed-keeps c in
        elim (Bool-cases (nat_eq ct p)) [
          | inl same ↦ (
            mark_closed c,
            ground (arith, get_elem?-update ct p mark_closed s.heap),
            same_name ∙ n,
            same_enc ∙ u,
          )
          | inr differ ↦ (c, ground (arith, get_elem?-update ct p mark_closed s.heap), n, u)
        ];
  }

  module _ (sign : Sign) where
    advance-IsOrderly :
        (pc : Routine R) (s : Server R) → IsOrderly s → StaysOrderly (advance sign pc s)
    unfolding advance add_session delete_control change_state
    advance-IsOrderly (adds h domain rules id signature) s v =
        elim (Result-cases (add_host domain id rules s.virtual_hosts)) [
          | inr (e, a) ↦ rw (a, advance) v
          | inl (hosts, a) ↦
              rw (a, advance)
                (record {
                  hosts = add_host-IsWellFormed domain id rules s.virtual_hosts hosts v.hosts a;
                  named = v.named;
                })
        ]
    advance-IsOrderly (checks h id signature) s v =
        elim (Bool-cases (check_identifier_signature sign id s.settings.signature_key signature)) [
          | inr bad ↦ rw (bad, advance) v
          | inl good ↦ elim (Option-cases (get_host id s.virtual_hosts)) [
            | inl g ↦ rw (good, advance) (rw g v)
            | inr (host, g) ↦ rw (good, advance) (rw g v)
          ]
        ]
    advance-IsOrderly (looks h id) s v = elim (Option-cases (lookup id s.controls)) [
      | inl l ↦ rw (l, advance) v
      | inr (ct, l) ↦ rw (l, advance) v
    ]
    advance-IsOrderly (upgrades h id) s v = take_over-IsOrderly h id s v
    advance-IsOrderly (adds_session h id conn session) s v = record {
      hosts = v.hosts;
      named = v.named;
    }
    advance-IsOrderly (greets h id conn) s v =
        after_greeting-IsOrderly id conn (open_control_stream h) s v
    advance-IsOrderly (registers id stream) s v = add_control-IsOrderly id stream s v
    advance-IsOrderly (closes ct id e role) s v = close_control-IsOrderly ct s v
    advance-IsOrderly (unregisters id e role) s v = record {
      hosts = v.hosts;
      named = λ j p l. v.named j p (ground (arith, lookup-delete id j s.controls));
    }
    advance-IsOrderly (releases hung id e role) s v = release-IsOrderly hung id e role s v
    advance-IsOrderly (frees host hung id e role) s v = record {
      hosts = delete_host-IsWellFormed host s.virtual_hosts v.hosts;
      named = v.named;
    }
    advance-IsOrderly (reports hung id e role) s v = report-IsOrderly role id e hung s v
    advance-IsOrderly (announces id e role) s v = record { hosts = v.hosts; named = v.named }
    advance-IsOrderly (starts ct) s v = record { hosts = v.hosts; named = v.named }
    advance-IsOrderly (hails ct id) s v = record { hosts = v.hosts; named = v.named }
    advance-IsOrderly (waits ct) s v = v
    advance-IsOrderly (replied reply) s v = v
    advance-IsOrderly ended s v = v

module _ (re : Regexp) (sign : Sign) (decode : Bytes → Option ConnectionConfig) where
  open re use {Regex}

  -- The systems that a new server gets to, by steps for any clients.
  pub data Runs (c : Settings Regex) (ch : Option Channel) : System Regex → Type 0 where
    new : Runs c ch (record { server = initial c ch; threads = [] })
    next :
        (id : Bytes) {p q : System Regex} → Runs c ch p → Step re sign decode id p q → Runs c ch q

  Step-IsOrderly :
      (id : Bytes) {p q : System Regex}
      → Step re sign decode id p q
      → IsOrderly p.server
      → IsOrderly q.server
  Step-IsOrderly id {p} (turns (turn before after pc e rest free own)) v =
      advance-IsOrderly sign pc p.server v
  Step-IsOrderly id (arrives h r own) v = v
  Step-IsOrderly id (breaks before after ct e at own) v = v

  -- However the requests and the listeners of a new server interleave, between any two calls that take
  -- a mutex: each identifier has one host at most, and each registered control is named after the
  -- client that it is registered under, and can encode.
  pub Runs-IsOrderly :
      (c : Settings Regex) (ch : Option Channel) {p : System Regex}
      → Runs c ch p
      → IsOrderly p.server
  unfolding lookup
  Runs-IsOrderly c ch new = record {
    hosts = record { distinct = tt; one_host = λ h j x y p q same. cc };
    named = λ id p e. absurd (cc);
  }
  Runs-IsOrderly c ch (next id r st) = Step-IsOrderly id st (Runs-IsOrderly c ch r)
