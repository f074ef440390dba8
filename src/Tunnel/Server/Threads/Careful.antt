-- ===== src/Tunnel/Server/Threads/Careful.antt =====
-- What one step of a goroutine leaves as it is of a client that it is not for.
use mylittleproxy.Base.{
  ℕ, Bytes, Bool, ◌≡◌, refl, sym, ap, ◌≢◌, subst, false, none, some, [], ◌∷◌, length, Option,
  Option-cases, Result, Result-cases, inl, inr, arith, ok, err, lookup, lookup-insert,
  lookup-delete, delete, eq_iff, ◌==◌, Bool-cases,
}
use mylittleproxy.Tunnel.Errors.{Error}
use mylittleproxy.Tunnel.VirtualHosts.{
  VirtualHosts, VirtualHost, add_host, delete_host, get_host, get_virtual_host, get_identifier,
}
use mylittleproxy.Tunnel.VirtualHosts.Find.{
  IsWellFormed, get_host_ext, get_host-get_identifier_iff, get_host_sound, get_virtual_host_sound,
}
use mylittleproxy.Tunnel.VirtualHosts.AddHost.{
  add_host-IsWellFormed, delete_host-IsWellFormed, add_host_lem,
}
use mylittleproxy.Tunnel.Server.{
  Server, change_state, add_session, add_control, delete_control, close_control,
}
use mylittleproxy.Tunnel.Server.Handshake.{Sign, check_identifier_signature, open_control_stream}
use mylittleproxy.Tunnel.Server.Release.{IsUntouched}
use mylittleproxy.Tunnel.Server.Threads.{
  Routine, adds, checks, looks, upgrades, adds_session, greets, registers, closes, unregisters,
  releases, frees, reports, announces, starts, hails, waits, replied, ended, answers, listens,
  advance, after_greeting, report, release, Role, hang_up,
}
use mylittleproxy.Tunnel.Server.Threads.Branches.{take_over-cases}
use mylittleproxy.Tunnel.Server.Threads.System.{is_at_rest, client_of}

abbrev is_about : Bytes → Option Bytes → Bool
is_about host none = false
is_about host (some h) = host == h

module _ {R : Type 0} where
  -- The goroutine is about to delete the host, if any.
  abbrev pub deletes : Option Bytes → Routine R → Bool
  deletes h (frees host hung id e role) = is_about host h
  deletes h pc = false

  -- What a step of another client's goroutine keeps.
  pub record IsCareful (j : Bytes) (s : Server R) (x : Routine R × Server R) : Type 0 where
    pub hosts : IsWellFormed x.1.virtual_hosts
    pub same : IsUntouched j s x.1
    pub spares : deletes (get_host j s.virtual_hosts) x.0 ≡ false

  -- The tables are the same.
  abbrev keeps_tables :
      (j : Bytes) (s t : Server R) (pc : Routine R)
      → IsWellFormed s.virtual_hosts
      → t.virtual_hosts ≡ s.virtual_hosts
      → t.controls ≡ s.controls
      → t.sessions ≡ s.sessions
      → deletes (get_host j s.virtual_hosts) pc ≡ false
      → IsCareful j s (pc, t)
  keeps_tables j s t pc w a b c d = record {
    hosts = subst IsWellFormed (sym a) w;
    same = record {
      same_control = ap (lookup j) b;
      same_session = ap (lookup j) c;
      same_host = ap (get_host j) a;
    };
    spares = d;
  }

  spared_host :
      (j id host : Bytes) (x : VirtualHost R) (v : VirtualHosts R)
      → IsWellFormed v
      → get_virtual_host id v ≡ some (x, host)
      → j ≢ id
      → is_about host (get_host j v) ≡ false
  spared_host j id host x v w g ne = elim (Option-cases (get_host j v)) [
    | inl n ↦ rw n
    | inr (h, f) ↦
        let (l, i) = get_virtual_host_sound id host x v w.distinct g in
        let (y, m, k) = get_host_sound j h v w.distinct f in rw f (ground (arith, eq_iff host h))
  ]

  get_host-freed :
      (j host : Bytes) (v : VirtualHosts R)
      → IsWellFormed v
      → is_about host (get_host j v) ≡ false
      → get_host j (delete_host host v) ≡ get_host j v
  unfolding delete_host get_identifier
  get_host-freed j host v w d = get_host_ext j _ v (delete_host-IsWellFormed host v w) w λ i.
      ground (arith, lookup-delete host i v, eq_iff host i, get_host-get_identifier_iff v j i w)

  careful_after_greeting :
      (j : Bytes) (id : Bytes) (conn : ℕ) (r : Option ℕ × Result Error ℕ) (s : Server R)
      → IsWellFormed s.virtual_hosts
      → IsCareful j s (after_greeting id conn r s)
  unfolding after_greeting
  careful_after_greeting j id conn (opened, ok stream) s w =
      keeps_tables j s _ _ w refl refl refl refl
  careful_after_greeting j id conn (opened, err e) s w = keeps_tables j s _ _ w refl refl refl refl

  careful_release :
      (j : Bytes) (hung : Option ℕ) (id : Bytes) (e : Error) (role : Role) (s : Server R)
      → IsWellFormed s.virtual_hosts
      → j ≢ id
      → IsCareful j s (release hung id e role s)
  unfolding release
  careful_release j hung id e role s w ne = elim (Option-cases (lookup id s.sessions)) [
    | inl l ↦ rw (l, release) (keeps_tables j s s _ w refl refl refl refl)
    | inr (session, l) ↦
        let other : lookup j (delete id s.sessions) ≡ lookup j s.sessions =
          ground (arith, lookup-delete id j s.sessions, eq_iff id j, ne) in
        elim (Option-cases (get_virtual_host id s.virtual_hosts)) [
          | inl g ↦
              rw (l, release)
                (rw g (record {
                  hosts = w;
                  same = record { same_control = refl; same_session = other; same_host = refl };
                  spares = refl;
                }))
          | inr ((x, host), g) ↦
              rw (l, release)
                (rw g (record {
                  hosts = w;
                  same = record { same_control = refl; same_session = other; same_host = refl };
                  spares = spared_host j id host x s.virtual_hosts w g ne;
                }))
        ]
  ]

  careful_report :
      (j : Bytes) (role : Role) (id : Bytes) (e : Error) (hung : Option ℕ) (s : Server R)
      → IsWellFormed s.virtual_hosts
      → IsCareful j s (report role id e (hang_up hung s))
  unfolding report
  careful_report j answers [] e none s w = keeps_tables j s _ _ w refl refl refl refl
  careful_report j answers [] e (some conn) s w = keeps_tables j s _ _ w refl refl refl refl
  careful_report j answers (c ∷ cs) e none s w = keeps_tables j s _ _ w refl refl refl refl
  careful_report j answers (c ∷ cs) e (some conn) s w = keeps_tables j s _ _ w refl refl refl refl
  careful_report j listens id e none s w = keeps_tables j s _ _ w refl refl refl refl
  careful_report j listens id e (some conn) s w = keeps_tables j s _ _ w refl refl refl refl

  module _ (sign : Sign) where
    pub careful_advance :
        (j : Bytes) (pc : Routine R) (s : Server R)
        → IsWellFormed s.virtual_hosts
        → deletes (get_host j s.virtual_hosts) pc ≡ false
        → is_at_rest pc ≡ false
        → j ≢ client_of pc s
        → IsCareful j s (advance sign pc s)
    unfolding advance is_at_rest client_of add_session add_control delete_control close_control
        change_state
    careful_advance j (adds h domain rules id signature) s w d b ne =
        elim (Result-cases (add_host domain id rules s.virtual_hosts)) [
          | inr (e, a) ↦ rw (a, advance) (keeps_tables j s s _ w refl refl refl refl)
          | inl (hosts, a) ↦
              let (_, _, _, others) = add_host_lem domain id rules s.virtual_hosts hosts w a in
              rw (a, advance)
                (record {
                  hosts = add_host-IsWellFormed domain id rules s.virtual_hosts hosts w a;
                  same = record {
                    same_control = refl;
                    same_session = refl;
                    same_host = others j ne;
                  };
                  spares = refl;
                })
        ]
    careful_advance j (checks h id signature) s w d b ne =
        elim (Bool-cases (check_identifier_signature sign id s.settings.signature_key signature)) [
          | inr bad ↦ rw (bad, advance) (keeps_tables j s s _ w refl refl refl refl)
          | inl good ↦ elim (Option-cases (get_host id s.virtual_hosts)) [
            | inl g ↦ rw (good, advance) (rw g (keeps_tables j s s _ w refl refl refl refl))
            | inr (host, g) ↦ rw (good, advance) (rw g (keeps_tables j s s _ w refl refl refl refl))
          ]
        ]
    careful_advance j (looks h id) s w d b ne = elim (Option-cases (lookup id s.controls)) [
      | inl l ↦ rw (l, advance) (keeps_tables j s s _ w refl refl refl refl)
      | inr (ct, l) ↦ rw (l, advance) (keeps_tables j s s _ w refl refl refl refl)
    ]
    careful_advance j (upgrades h id) s w d b ne = elim (take_over-cases h id s) [
      | inl (e, t, a, k, v, c, m) ↦
          subst (IsCareful j s) (sym a) (keeps_tables j s t _ w v c m refl)
      | inr (conn, session, a, k) ↦
          subst (IsCareful j s) (sym a) (keeps_tables j s _ _ w refl refl refl refl)
    ]
    careful_advance j (adds_session h id conn session) s w d b ne = record {
      hosts = w;
      same = record {
        same_control = refl;
        same_session =
            ground (arith, lookup-insert id j (some session) s.sessions, eq_iff id j, ne);
        same_host = refl;
      };
      spares = refl;
    }
    careful_advance j (greets h id conn) s w d b ne =
        careful_after_greeting j id conn (open_control_stream h) s w
    careful_advance j (registers id stream) s w d b ne = record {
      hosts = w;
      same = record {
        same_control =
            ground (arith, lookup-insert id j (length s.heap) s.controls, eq_iff id j, ne);
        same_session = refl;
        same_host = refl;
      };
      spares = refl;
    }
    careful_advance j (closes ct id e role) s w d b ne = keeps_tables j s _ _ w refl refl refl refl
    careful_advance j (unregisters id e role) s w d b ne = record {
      hosts = w;
      same = record {
        same_control = ground (arith, lookup-delete id j s.controls, eq_iff id j, ne);
        same_session = refl;
        same_host = refl;
      };
      spares = refl;
    }
    careful_advance j (releases hung id e role) s w d b ne = careful_release j hung id e role s w ne
    careful_advance j (frees host hung id e role) s w d b ne = record {
      hosts = delete_host-IsWellFormed host s.virtual_hosts w;
      same = record {
        same_control = refl;
        same_session = refl;
        same_host = get_host-freed j host s.virtual_hosts w d;
      };
      spares = refl;
    }
    careful_advance j (reports hung id e role) s w d b ne = careful_report j role id e hung s w
    careful_advance j (announces id e answers) s w d b ne =
        keeps_tables j s _ _ w refl refl refl refl
    careful_advance j (announces id e listens) s w d b ne =
        keeps_tables j s _ _ w refl refl refl refl
    careful_advance j (starts ct) s w d b ne = keeps_tables j s _ _ w refl refl refl refl
    careful_advance j (hails ct id) s w d b ne = keeps_tables j s _ _ w refl refl refl refl
    careful_advance j (waits ct) s w d b ne = absurd (cc)
    careful_advance j (replied reply) s w d b ne = absurd (cc)
    careful_advance j ended s w d b ne = absurd (cc)
