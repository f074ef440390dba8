-- ===== src/Tunnel/VirtualHosts/Order.antt =====
-- `GetHost`, `GetVirtualHost` and `AddHost` range over the map, in an order that Go leaves open.
-- None of their results depends on it.
use mylittleproxy.Base.{
  Bytes, ◌≡◌, List, lookup, IsSameMap, ok, err, ◌⊎◌, inl, inr, Option-cases, insert, false,
  Bool-cases,
}
use mylittleproxy.Tunnel.VirtualHosts.{
  HttpRewriteRule, VirtualHosts, add_host, get_identifier, get_host, get_virtual_host,
  is_claimed_by_other, release_others, host_in_use,
}
use mylittleproxy.Tunnel.VirtualHosts.Find.{
  IsWellFormed, get_host_ext, get_virtual_host_sound, get_virtual_host_complete,
  get_virtual_host_of_lookup,
}
use mylittleproxy.Tunnel.VirtualHosts.AddHost.{lookup-add_host}

accepted :
    {R : Type 0} (host id : Bytes) (rules : List (HttpRewriteRule R)) (v : VirtualHosts R)
    → is_claimed_by_other id (lookup host v) ≡ false
    → add_host host id rules v
      ≡ ok (insert host (record { identifier = id; rewrite = rules }) (release_others host id v))
unfolding add_host
accepted host id rules v free = rw (free, add_host)

module _ {R : Type 0} (v u : VirtualHosts R) (wv : IsWellFormed v) (wu : IsWellFormed u) where
  get_virtual_host-IsSameMap :
      (id : Bytes) → IsSameMap v u → get_virtual_host id v ≡ get_virtual_host id u
  get_virtual_host-IsSameMap id same = elim (Option-cases (get_virtual_host id v)) [
    | inl n ↦ elim (Option-cases (get_virtual_host id u)) [
      | inl m ↦ rw (n, m)
      | inr ((x, h), g) ↦
          let (l, i) = get_virtual_host_sound id h x u wu.distinct g in
          absurd (get_virtual_host_complete id h x v n (rw (same h) l) i)
    ]
    | inr ((x, h), g) ↦
        let (l, i) = get_virtual_host_sound id h x v wv.distinct g in
        rw (g, get_virtual_host_of_lookup id h x u wu (rw (← same h) l) i)
  ]

  -- Look-ups in two well-formed tables with the same entries, visited in any two orders, agree.
  pub look_ups-IsSameMap :
      (id host : Bytes)
      → IsSameMap v u
      → (get_virtual_host id v ≡ get_virtual_host id u)
        × (get_host id v ≡ get_host id u)
        × (get_identifier host v ≡ get_identifier host u)
  unfolding get_identifier
  look_ups-IsSameMap id host same = (
    get_virtual_host-IsSameMap id same,
    get_host_ext id v u wv wu (λ h. rw (same h, get_identifier) (λ e. e, λ e. e)),
    rw (same host, get_identifier),
  )

  -- `AddHost` to two well-formed tables with the same entries does the same: it is refused in both,
  -- or gives the same entries.
  pub add_host-IsSameMap :
      (host id : Bytes) (rules : List (HttpRewriteRule R))
      → IsSameMap v u
      → ((v' u' : VirtualHosts R) × (add_host host id rules v ≡ ok v')
          × (add_host host id rules u ≡ ok u')
          × IsSameMap v' u')
        ⊎ ((add_host host id rules v ≡ err (host_in_use host))
            × (add_host host id rules u ≡ err (host_in_use host)))
  unfolding add_host
  add_host-IsSameMap host id rules same =
      elim (Bool-cases (is_claimed_by_other id (lookup host v))) [
        | inl taken ↦ inr (rw (taken, add_host), rw (← same host, taken, add_host))
        | inr free ↦
            let ev = accepted host id rules v free in
            let eu = accepted host id rules u (rw (← same host) free) in
            inl (
              _,
              _,
              ev,
              eu,
              λ j. rw (
                lookup-add_host host id j rules v _ wv ev,
                lookup-add_host host id j rules u _ wu eu,
                same j,
              ),
            )
      ]
