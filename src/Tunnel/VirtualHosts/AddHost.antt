-- ===== src/Tunnel/VirtualHosts/AddHost.antt =====
-- What `AddHost` and `DeleteHost` do to the table, on every branch.
use mylittleproxy.Base.{
  Bytes, ◌≡◌, refl, ◌≢◌, ◌↔◌, Option, none, some, List, [], ◌∷◌, arith, ◌==◌, eq_iff, eq_refl,
  lookup, insert, lookup-insert, lookup-delete, insert-HasDistinctKeys, delete-HasDistinctKeys,
  HasDistinctKeys, Option-cases, inl, inr, ok, err, if◌then◌else◌, not, ◌&&◌,
}
use mylittleproxy.Tunnel.VirtualHosts.{
  HttpRewriteRule, VirtualHost, VirtualHosts, host_in_use, release_others, add_host, delete_host,
  get_identifier, get_host, get_virtual_host,
}
use mylittleproxy.Tunnel.VirtualHosts.Find.{
  IsWellFormed, get_host_of_lookup, get_virtual_host_of_lookup, get_host_ext,
}

module _ {R : Type 0} where
  -- The entry at a host after the loop of `AddHost`: dropped if it is another host of `identifier`.
  abbrev pub kept : Bytes → Bytes → Bytes → Option (VirtualHost R) → Option (VirtualHost R)
  kept host identifier j none = none
  kept host identifier j (some x) =
      if x.identifier == identifier && not (j == host) then none else some x

  lookup-release_others :
      (host id j : Bytes) (v : VirtualHosts R)
      → HasDistinctKeys v
      → lookup j (release_others host id v) ≡ kept host id j (lookup j v)
  unfolding lookup release_others
  lookup-release_others host id j [] d = refl
  lookup-release_others host id j ((i, x) ∷ v) d =
      ground (arith, eq_iff i j, lookup-release_others host id j v d.1)

  release_others-HasDistinctKeys :
      (host id : Bytes) (v : VirtualHosts R)
      → HasDistinctKeys v
      → HasDistinctKeys (release_others host id v)
  unfolding release_others
  release_others-HasDistinctKeys host id [] d = tt
  release_others-HasDistinctKeys host id ((i, x) ∷ v) d =
      ground
        (arith, release_others-HasDistinctKeys host id v d.1, lookup-release_others host id i v d.1)

  -- `AddHost` fails exactly when the host belongs to another identifier.
  pub add_host-eq-err_iff :
      (host id : Bytes) (rules : List (HttpRewriteRule R)) (v : VirtualHosts R)
      → (add_host host id rules v ≡ err (host_in_use host))
        ↔ ((owner : Bytes) × (get_identifier host v ≡ some owner) × (owner ≢ id))
  unfolding add_host get_identifier
  add_host-eq-err_iff host id rules v = elim (Option-cases (lookup host v)) [
    | inl n ↦ rw (n, add_host) (λ e. absurd (cc), λ r. absurd (ground arith))
    | inr (x, l) ↦ (
      λ e. (x.identifier, ground arith, λ same. ground (arith, eq_iff x.identifier id)),
      λ r. ground (arith, eq_iff x.identifier id),
    )
  ]

  add_host_inversion :
      (host id : Bytes) (rules : List (HttpRewriteRule R)) (v v' : VirtualHosts R)
      → add_host host id rules v ≡ ok v'
      → v' ≡ insert host (record { identifier = id; rewrite = rules }) (release_others host id v)
  unfolding add_host
  add_host_inversion host id rules v v' e = ground arith

  -- A well-formed table after a successful `AddHost`, at every host: the new entry, no other host
  -- of the identifier, and the rest as before.
  pub lookup-add_host :
      (host id j : Bytes) (rules : List (HttpRewriteRule R)) (v v' : VirtualHosts R)
      → IsWellFormed v
      → add_host host id rules v ≡ ok v'
      → lookup j v' ≡ (
          if host == j
          then some (record { identifier = id; rewrite = rules })
          else kept host id j (lookup j v))
  lookup-add_host host id j rules v v' w e = rw (
    add_host_inversion host id rules v v' e,
    lookup-insert host j (record { identifier = id; rewrite = rules }) (release_others host id v),
    lookup-release_others host id j v w.distinct,
  )

  -- A successful `AddHost` keeps the table well formed: each identifier has at most one host.
  pub add_host-IsWellFormed :
      (host id : Bytes) (rules : List (HttpRewriteRule R)) (v v' : VirtualHosts R)
      → IsWellFormed v
      → add_host host id rules v ≡ ok v'
      → IsWellFormed v'
  add_host-IsWellFormed host id rules v v' w e = record {
    distinct =
        rw (add_host_inversion host id rules v v' e)
          (insert-HasDistinctKeys host _ _ (release_others-HasDistinctKeys host id v w.distinct));
    one_host = λ h j x y p q same. ground (
      arith,
      lookup-add_host host id h rules v v' w e,
      lookup-add_host host id j rules v v' w e,
      w.one_host h j x y,
      eq_iff host h,
      eq_iff host j,
      eq_iff h host,
      eq_iff j host,
      eq_iff x.identifier id,
      eq_iff y.identifier id,
    );
  }

  -- `DeleteHost` keeps the table well formed.
  pub delete_host-IsWellFormed :
      (host : Bytes) (v : VirtualHosts R) → IsWellFormed v → IsWellFormed (delete_host host v)
  unfolding delete_host
  delete_host-IsWellFormed host v w = record {
    distinct = delete-HasDistinctKeys host v w.distinct;
    one_host = λ h j x y p q same.
        ground (arith, lookup-delete host h v, lookup-delete host j v, w.one_host h j x y);
  }

  -- The entries of other identifiers are untouched by `AddHost`.
  add_host_others :
      (host id j other : Bytes) (rules : List (HttpRewriteRule R)) (v v' : VirtualHosts R)
      → IsWellFormed v
      → add_host host id rules v ≡ ok v'
      → other ≢ id
      → (get_identifier j v' ≡ some other) ↔ (get_identifier j v ≡ some other)
  unfolding add_host get_identifier
  add_host_others host id j other rules v v' w e ne = elim (Option-cases (lookup j v)) [
    | inl n ↦ ground (arith, n, ne, lookup-add_host host id j rules v v' w e, eq_iff host j)
    | inr (x, l) ↦ ground (
      arith,
      l,
      ne,
      lookup-add_host host id j rules v v' w e,
      eq_iff host j,
      eq_iff j host,
      eq_iff x.identifier id,
    )
  ]

  -- After a successful `AddHost` to a well-formed table the look-ups find the new pair, with its
  -- rules, and the hosts of every other identifier are found as before.
  pub add_host_lem :
      (host id : Bytes) (rules : List (HttpRewriteRule R)) (v v' : VirtualHosts R)
      → IsWellFormed v
      → add_host host id rules v ≡ ok v'
      → (get_identifier host v' ≡ some id)
        × (get_host id v' ≡ some host)
        × (get_virtual_host id v' ≡ some (record { identifier = id; rewrite = rules }, host))
        × ((other : Bytes) → other ≢ id → get_host other v' ≡ get_host other v)
  unfolding get_identifier
  add_host_lem host id rules v v' w e =
      let here : lookup host v' ≡ some (record { identifier = id; rewrite = rules }) =
        rw (lookup-add_host host id host rules v v' w e, eq_refl host) in
      let w' = add_host-IsWellFormed host id rules v v' w e in
      (
        rw (here, get_identifier),
        get_host_of_lookup id host _ v' w' here refl,
        get_virtual_host_of_lookup id host _ v' w' here refl,
        λ other ne.
            get_host_ext other v' v w' w (λ j. add_host_others host id j other rules v v' w e ne),
      )
