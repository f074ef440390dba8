-- ===== src/Tunnel/VirtualHosts/Find.antt =====
-- The loops of `GetHost` and `GetVirtualHost` against the map that they walk.
use mylittleproxy.Base.{
  Bytes, ◌≡◌, refl, ◌≢◌, ◌↔◌, none, some, [], ◌∷◌, arith, eq_iff, lookup, HasDistinctKeys,
  Option-cases, Option-ext, inl, inr,
}
use mylittleproxy.Tunnel.VirtualHosts.{
  VirtualHost, VirtualHosts, get_identifier, get_host, get_virtual_host,
}

module _ {R : Type 0} where
  -- No two hosts have the same identifier, and the map is a map.
  pub record IsWellFormed (v : VirtualHosts R) : Type 0 where
    pub distinct : HasDistinctKeys v
    pub one_host :
        (h j : Bytes) (x y : VirtualHost R)
        → lookup h v ≡ some x
        → lookup j v ≡ some y
        → x.identifier ≡ y.identifier
        → h ≡ j

  pub get_virtual_host_sound :
      (id host : Bytes) (x : VirtualHost R) (v : VirtualHosts R)
      → HasDistinctKeys v
      → get_virtual_host id v ≡ some (x, host)
      → (lookup host v ≡ some x) × (x.identifier ≡ id)
  unfolding get_virtual_host lookup
  get_virtual_host_sound id host x [] d e = cc
  get_virtual_host_sound id host x ((j, y) ∷ v) d e =
      ground (arith, eq_iff y.identifier id, eq_iff j host, get_virtual_host_sound id host x v d.1)

  pub get_virtual_host_complete :
      (id host : Bytes) (x : VirtualHost R) (v : VirtualHosts R)
      → get_virtual_host id v ≡ none
      → lookup host v ≡ some x
      → x.identifier ≢ id
  unfolding get_virtual_host lookup
  get_virtual_host_complete id host x [] e l = cc
  get_virtual_host_complete id host x ((j, y) ∷ v) e l =
      ground (arith, eq_iff y.identifier id, eq_iff j host, get_virtual_host_complete id host x v)

  -- `GetHost` is the name that `GetVirtualHost` reports.
  pub get_host-get_virtual_host :
      (id : Bytes) (v : VirtualHosts R)
      → get_host id v ≡ (elim (get_virtual_host id v) [ none ↦ none | some (x, h) ↦ some h ])
  unfolding get_host get_virtual_host
  get_host-get_virtual_host id [] = refl
  get_host-get_virtual_host id ((j, y) ∷ v) = ground (arith, get_host-get_virtual_host id v)

  pub get_virtual_host_of_lookup :
      (id host : Bytes) (x : VirtualHost R) (v : VirtualHosts R)
      → IsWellFormed v
      → lookup host v ≡ some x
      → x.identifier ≡ id
      → get_virtual_host id v ≡ some (x, host)
  get_virtual_host_of_lookup id host x v w l e = elim (Option-cases (get_virtual_host id v)) [
    | inl n ↦ absurd (get_virtual_host_complete id host x v n l e)
    | inr ((y, j), g) ↦
        let (m, i) = get_virtual_host_sound id j y v w.distinct g in
        ground (arith, w.one_host host j x y)
  ]

  pub get_host_sound :
      (id host : Bytes) (v : VirtualHosts R)
      → HasDistinctKeys v
      → get_host id v ≡ some host
      → (x : VirtualHost R) × (lookup host v ≡ some x) × (x.identifier ≡ id)
  get_host_sound id host v d e = elim (Option-cases (get_virtual_host id v)) [
    | inl n ↦ absurd (cc (get_host-get_virtual_host id v, n))
    | inr ((x, j), g) ↦
        let (l, i) = get_virtual_host_sound id j x v d g in
        (x, ground (arith, get_host-get_virtual_host id v), i)
  ]

  pub lookup_of_get_identifier :
      (v : VirtualHosts R) (id host : Bytes)
      → get_identifier host v ≡ some id
      → (x : VirtualHost R) × (lookup host v ≡ some x) × (x.identifier ≡ id)
  unfolding get_identifier
  lookup_of_get_identifier v id host e = elim (Option-cases (lookup host v)) [
    | inl n ↦ absurd (ground arith)
    | inr (x, l) ↦ (x, l, ground arith)
  ]

  pub get_host_of_lookup :
      (id host : Bytes) (x : VirtualHost R) (v : VirtualHosts R)
      → IsWellFormed v
      → lookup host v ≡ some x
      → x.identifier ≡ id
      → get_host id v ≡ some host
  get_host_of_lookup id host x v w l e =
      rw (get_host-get_virtual_host id v, get_virtual_host_of_lookup id host x v w l e)

  -- In a well-formed table `GetHost` and `GetIdentifier` invert one another: a client is found under
  -- a host exactly when that host is what the client is found to own.
  pub get_host-get_identifier_iff :
      (v : VirtualHosts R) (id host : Bytes)
      → IsWellFormed v
      → (get_host id v ≡ some host) ↔ (get_identifier host v ≡ some id)
  unfolding get_identifier
  get_host-get_identifier_iff v id host w = (to, from)
    where
      to : get_host id v ≡ some host → get_identifier host v ≡ some id
      to e = let (x, l, i) = get_host_sound id host v w.distinct e in rw (l, get_identifier, i)

      from : get_identifier host v ≡ some id → get_host id v ≡ some host
      from e =
          let (x, l, i) = lookup_of_get_identifier v id host e in
          get_host_of_lookup id host x v w l i

  -- `GetHost` depends only on which hosts the identifier is found under.
  pub get_host_ext :
      (id : Bytes) (v u : VirtualHosts R)
      → IsWellFormed v
      → IsWellFormed u
      → ((host : Bytes) → (get_identifier host v ≡ some id) ↔ (get_identifier host u ≡ some id))
      → get_host id v ≡ get_host id u
  get_host_ext id v u wv wu same = Option-ext _ _ λ host.
      let (a, b) = get_host-get_identifier_iff v id host wv in
      let (c, d) = get_host-get_identifier_iff u id host wu in
      let (f, g) = same host in (λ e. d (f (a e)), λ e. b (g (c e)))
