-- ===== src/Tunnel/Server/Threads/Alone.antt =====
-- A goroutine that nothing interrupts does what the handler does in one piece.
use mylittleproxy.Base.{
  bytes, ℕ, zero, suc, Bytes, ◌≡◌, refl, sym, ap, ◌∙◌, Option, none, some, [], ◌∷◌, Result, ok, err,
  lookup, Option-cases, Result-cases, Bool-cases, inl, inr, true,
}
use mylittleproxy.Proto.{ConnectionConfig, client_identifier_header, client_identifier_signature}
use mylittleproxy.Tunnel.Regexp.{Regexp}
use mylittleproxy.Tunnel.Errors.{invalid_signature, no_host_for, Error, control_exists}
use mylittleproxy.Tunnel.VirtualHosts.{add_host, get_host}
use mylittleproxy.Tunnel.Server.{Server, delete_session, on_disconnect}
use mylittleproxy.Tunnel.Server.Handshake.{
  Sign, HandshakeIo, hijack, finish, drop_client, control_handler, listen_fail, identifier_at,
  check_identifier_signature, open_control_stream,
}
use mylittleproxy.Tunnel.Server.Connect.{
  Request, reply_of, taken_over, conclude, admit, check_connect, header_get, http_error, text,
}
use mylittleproxy.Tunnel.Server.Threads.{
  Routine, adds, checks, looks, upgrades, releases, reports, closes, replied, ended, answers,
  listens, Role, hang_up, advance, advances, arrive, after_greeting, report,
}
use mylittleproxy.Tunnel.Server.Threads.Branches.{release-cases, take_over-cases}

module _ {R : Type 0} (sign : Sign) where
  advances-replied :
      (n : ℕ) (reply : _) (s : Server R) → advances sign n (replied reply, s) ≡ (replied reply, s)
  unfolding advances
  advances-replied zero reply s = refl
  advances-replied (suc n) reply s = advances-replied n reply s

  advances-ended : (n : ℕ) (s : Server R) → advances sign n (ended, s) ≡ (ended, s)
  unfolding advances
  advances-ended zero s = refl
  advances-ended (suc n) s = advances-ended n s

  -- The result of a handler, as a goroutine that is through.
  abbrev concluded : Bytes → Option Error × Server R → Routine R × Server R
  concluded id x = (replied (conclude id x).0, (conclude id x).1)

  step :
      (n : ℕ) (pc : Routine R) (s : Server R) {y z : Routine R × Server R}
      → advance sign pc s ≡ y
      → advances sign n y ≡ z
      → advances sign (suc n) (pc, s) ≡ z
  unfolding advances
  step n pc s e f = ap (advances sign n) e ∙ f

  -- What is left once the client is dropped.
  abbrev settled : Role → Bytes → Error → Server R → Routine R × Server R
  settled answers id e s = concluded id (some e, s)
  settled listens id e s = (ended, on_disconnect id (some e) s)

  advances-reports :
      (n : ℕ) (hung : Option ℕ) (id : Bytes) (e : Error) (role : Role) (s : Server R)
      → advances sign (suc (suc n)) (reports hung id e role, s) ≡ settled role id e (hang_up hung s)
  unfolding advance report conclude on_disconnect
  advances-reports n hung [] e answers s =
      step _ _ s refl (advances-replied (suc n) (reply_of e) (hang_up hung s))
  advances-reports n hung (c ∷ cs) e answers s =
      step _ _ s refl (step _ _ _ refl (advances-replied n (reply_of e) _))
  advances-reports n hung id e listens s = step _ _ s refl (step _ _ _ refl (advances-ended n _))

  -- `deleteSession`, with or without something to delete.
  advances-releases :
      (n : ℕ) (hung : Option ℕ) (id : Bytes) (e : Error) (role : Role) (s : Server R)
      → advances sign (suc (suc (suc (suc n)))) (releases hung id e role, s)
        ≡ settled role id e (hang_up hung (delete_session id s))
  unfolding advance
  advances-releases n hung id e role s =
      let result = λ (t : Server R). settled role id e (hang_up hung t) in
      elim (release-cases hung id e role s) [
        | inl (t, a, d) ↦
            step _ _ s a (advances-reports (suc n) hung id e role t ∙ ap result (sym d))
        | inr (host, t, a, d) ↦
            step _ _ s a (step _ _ t refl (advances-reports n hung id e role _ ∙ ap result (sym d)))
      ]

  -- The end of a listener, from `ct.Close()` on, when nothing interrupts it.
  pub advances-closes :
      (ct : ℕ) (e : Error) (s : Server R)
      → advances sign 6 (closes ct (identifier_at ct s) e listens, s) ≡ (ended, listen_fail ct e s)
  unfolding advance listen_fail drop_client
  advances-closes ct e s =
      step _ _ s refl (step _ _ _ refl (advances-releases 0 none (identifier_at ct s) e listens _))

  -- `controlHandler` from the result of the handshake on.
  advances-after_greeting :
      (n : ℕ) (id : Bytes) (conn : ℕ) (r : Option ℕ × Result Error ℕ) (s : Server R)
      → advances sign (suc (suc (suc (suc n)))) (after_greeting id conn r s)
        ≡ concluded id (finish id conn r s)
  unfolding advance after_greeting finish conclude
  advances-after_greeting n id conn (opened, ok stream) s =
      step _ _ _ refl (advances-replied (suc (suc (suc n))) taken_over _)
  advances-after_greeting n id conn (opened, err e) s =
      advances-releases n (some conn) id e answers _

  -- From the hijacking on.
  advances-upgrades :
      (n : ℕ) (h : HandshakeIo) (id : Bytes) (s : Server R)
      → advances sign (suc (suc (suc (suc (suc (suc (suc n))))))) (upgrades h id, s)
        ≡ concluded id (hijack h id s)
  unfolding advance
  advances-upgrades n h id s = elim (take_over-cases h id s) [
    | inl (e, t, a, k, _, _, _) ↦
        step _ _ s a (advances-reports _ none id e answers t ∙ ap (concluded id) (sym k))
    | inr (conn, session, a, k) ↦ step _ _ s a (
        step _ _ _ refl (
          step _ _ _ refl (advances-after_greeting n id conn (open_control_stream h) _)
          ∙ ap (concluded id) (sym k)))
  ]

  -- From `getControl` on.
  advances-looks :
      (n : ℕ) (h : HandshakeIo) (id signature : Bytes) (s : Server R) (host : Bytes)
      → check_identifier_signature sign id s.settings.signature_key signature ≡ true
      → get_host id s.virtual_hosts ≡ some host
      → advances sign (suc (suc (suc (suc (suc (suc (suc (suc n)))))))) (looks h id, s)
        ≡ concluded id (control_handler sign h id signature s)
  unfolding advance drop_client control_handler
  advances-looks n h id signature s host good g = elim (Option-cases (lookup id s.controls)) [
    | inl l ↦
        let k : control_handler sign h id signature s ≡ hijack h id s =
          rw (good, control_handler) (rw (g, l)) in
        step _ _ s (rw (l, advance)) (advances-upgrades n h id s ∙ ap (concluded id) (sym k))
    | inr (ct, l) ↦
        let k : control_handler sign h id signature s
            ≡ (some (control_exists id), drop_client ct id s) =
          rw (good, control_handler) (rw (g, l)) in
        step _ _ s (rw (l, advance)) (
          step _ (closes ct id (control_exists id) answers) s refl (
            step _ _ _ refl (
              advances-releases (suc n) none id (control_exists id) answers _
              ∙ ap (concluded id) (sym k))))
  ]

  advances-checks :
      (n : ℕ) (h : HandshakeIo) (id signature : Bytes) (s : Server R)
      → advances sign
          (suc (suc (suc (suc (suc (suc (suc (suc (suc n)))))))))
          (checks h id signature, s)
        ≡ concluded id (control_handler sign h id signature s)
  unfolding advance control_handler
  advances-checks n h id signature s =
      elim (Bool-cases (check_identifier_signature sign id s.settings.signature_key signature)) [
        | inr bad ↦ step _ _ s (rw (bad, advance)) (
            advances-reports _ none id (invalid_signature id) answers s ∙ rw (bad, control_handler))
        | inl good ↦ elim (Option-cases (get_host id s.virtual_hosts)) [
          | inl g ↦ step _ _ s (rw (good, advance) (rw g)) (
              advances-reports _ none id (no_host_for id) answers s
              ∙ rw (good, control_handler) (rw g))
          | inr (host, g) ↦
              step _ _ s (rw (good, advance) (rw g)) (advances-looks n h id signature s host good g)
        ]
      ]

module _ (re : Regexp) (sign : Sign) (decode : Bytes → Option ConnectionConfig) where
  open re use {Regex}

  -- A control request whose goroutine is not interrupted: ten of its steps are enough, and give the
  -- response and the server that the handler gives in one piece.
  pub advances-arrive :
      (h : HandshakeIo) (r : Request) (s : Server Regex)
      → advances sign 10 (arrive re sign decode s.settings h r, s)
        ≡ (replied (check_connect re sign decode h r s).0, (check_connect re sign decode h r s).1)
  unfolding arrive advance check_connect
  advances-arrive h r s = elim (Result-cases (admit re sign decode s.settings r)) [
    | inr (reply, a) ↦ rw (a, arrive, check_connect) (advances-replied sign 10 reply s)
    | inl ((domain, rules), a) ↦
        let id = header_get client_identifier_header r in
        let signature = header_get client_identifier_signature r in
        elim (Result-cases (add_host domain id rules s.virtual_hosts)) [
          | inr (e, b) ↦
              let first : advance sign (adds h domain rules id signature) s
                  ≡ (replied (http_error 409 (text (bytes "409 host already in use\n"))), s) =
                rw (b, advance) in
              rw (a, arrive, check_connect)
                (rw b (step sign 9 _ s first (advances-replied sign 9 _ s)))
          | inl (hosts, b) ↦
              let t = record s { virtual_hosts = hosts } in
              let first : advance sign (adds h domain rules id signature) s
                  ≡ (checks h id signature, t) =
                rw (b, advance) in
              rw (a, arrive, check_connect)
                (rw b (step sign 9 _ s first (advances-checks sign 0 h id signature t)))
        ]
  ]
