-- ===== src/Tunnel/Server/Unreachable.antt =====
-- Hosts that no public request reaches: `handleHTTP` looks for lower-case names only.
use mylittleproxy.Base.{
  Bytes, ◌≡◌, refl, sym, subst, ◌∙◌, ◌≢◌, ◌⊎◌, inl, inr, true, false, none, [], ◌∷◌, arith, All,
  Any, Option-cases, eq_iff, lookup, is_empty,
}
use mylittleproxy.Std.Text.{to_lower, is_upper}
use mylittleproxy.Std.Net.{split_host_port, parse_uint16}
use mylittleproxy.Std.Net.Parts.{split_host_port-All}
use mylittleproxy.Tunnel.Regexp.{Regexp}
use mylittleproxy.Tunnel.Errors.{no_virtual_host}
use mylittleproxy.Tunnel.VirtualHosts.{VirtualHosts}
use mylittleproxy.Tunnel.Server.{Server}
use mylittleproxy.Tunnel.Server.Connect.{Request, message}
use mylittleproxy.Tunnel.Server.Exchange.{PublicIo, fresh, write_error}
use mylittleproxy.Tunnel.Server.Public.{host_of, parse_host_port, public_handler}
use mylittleproxy.Tunnel.Server.Routing.{public_handler_unserved}

abbrev pub IsLower : Bytes → Type 0
IsLower s = All (λ c. is_upper c ≡ false) s

abbrev pub HasUpper : Bytes → Type 0
HasUpper s = Any (λ c. is_upper c ≡ true) s

IsLower-HasUpper : (s : Bytes) → IsLower s → HasUpper s → ⊥
IsLower-HasUpper [] l u = u
IsLower-HasUpper (c ∷ s) (l, ls) (inl u) = cc
IsLower-HasUpper (c ∷ s) (l, ls) (inr u) = IsLower-HasUpper s ls u

to_lower-IsLower : (s : Bytes) → IsLower (to_lower s)
unfolding to_lower
to_lower-IsLower [] = tt
to_lower-IsLower (c ∷ s) = (ground arith, to_lower-IsLower s)

host_of-IsLower : (s : Bytes) → IsLower s → IsLower (host_of (parse_host_port s))
unfolding parse_host_port
host_of-IsLower s l = elim (Option-cases (split_host_port s)) [
  | inl n ↦ rw (n, parse_host_port) tt
  | inr ((h, p), e) ↦ elim (Option-cases (parse_uint16 p)) [
    | inl n ↦ rw (e, parse_host_port) (rw n tt)
    | inr (port, m) ↦
        rw (e, parse_host_port) (rw m (split_host_port-All (λ c. is_upper c ≡ false) s h p e l))
  ]
]

to_lower-nonempty : (s : Bytes) → is_empty s ≡ false → is_empty (to_lower s) ≡ false
unfolding to_lower
to_lower-nonempty [] e = cc
to_lower-nonempty (c ∷ s) e = refl

skipped :
    (address d j : Bytes)
    → IsLower j
    → (j ≡ address) ⊎ (j ≡ host_of (parse_host_port address))
    → HasUpper d ⊎ ((d ≢ address) × (d ≢ host_of (parse_host_port address)))
    → d ≢ j
skipped address d j l at (inl up) e = IsLower-HasUpper d (subst IsLower (sym e) l) up
skipped address d j l (inl same) (inr (a, b)) e = a (e ∙ same)
skipped address d j l (inr same) (inr (a, b)) e = b (e ∙ same)

module _ {R : Type 0} where
  -- No entry is for this address, with its port or at its host alone, but for entries whose host has
  -- an upper-case letter.
  abbrev pub IsUnserved : (address : Bytes) → VirtualHosts R → Type 0
  IsUnserved address [] = Unit
  IsUnserved address ((d, x) ∷ v) =
      (HasUpper d ⊎ ((d ≢ address) × (d ≢ host_of (parse_host_port address))))
      × IsUnserved address v

  lookup-IsUnserved :
      (address j : Bytes) (v : VirtualHosts R)
      → IsLower j
      → (j ≡ address) ⊎ (j ≡ host_of (parse_host_port address))
      → IsUnserved address v
      → lookup j v ≡ none
  unfolding lookup
  lookup-IsUnserved address j [] l at u = refl
  lookup-IsUnserved address j ((d, x) ∷ v) l at (here, u) =
      ground
        (arith, eq_iff d j, lookup-IsUnserved address j v l at u, skipped address d j l at here)

module _ (re : Regexp) where
  open re use {Regex}

  -- A public request with a host whose address no entry is for, but for entries whose host has an
  -- upper-case letter, is answered 502, though it name such a host letter by letter; the server is
  -- as it was. There is no director.
  pub public_handler_unreachable :
      (p : PublicIo) (r : Request) (s : Server Regex)
      → is_empty r.host ≡ false
      → IsUnserved (to_lower r.host) s.virtual_hosts
      → public_handler re none p r s
        ≡ (write_error 502 (message (no_virtual_host (to_lower r.host))) fresh, s)
  public_handler_unreachable p r s has u =
      let address = to_lower r.host in
      let low = to_lower-IsLower r.host in
      public_handler_unserved re p r s (to_lower-nonempty r.host has)
        (lookup-IsUnserved address address s.virtual_hosts low (inl refl) u)
        (lookup-IsUnserved address (host_of (parse_host_port address)) s.virtual_hosts
          (host_of-IsLower address low) (inr refl) u)
