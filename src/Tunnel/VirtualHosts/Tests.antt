-- ===== src/Tunnel/VirtualHosts/Tests.antt =====
-- The table of hosts on small inputs.
use mylittleproxy.Base.{
  Bytes, bytes, ◌≡◌, refl, ◌≢◌, List, [], ◌∷◌, lookup, insert, ok, ◌==◌, IsSameMap, some, arith,
  eq_iff,
}
use mylittleproxy.Tunnel.VirtualHosts.{
  HttpRewriteRule, VirtualHost, VirtualHosts, release_others, add_host, get_host, get_virtual_host,
  get_identifier,
}
use mylittleproxy.Tunnel.VirtualHosts.Find.{IsWellFormed}
use mylittleproxy.Tunnel.VirtualHosts.AddHost.{add_host_lem, add_host-IsWellFormed}
use mylittleproxy.Tunnel.VirtualHosts.Order.{look_ups-IsSameMap}

abbrev alice : Bytes
alice = bytes "alice"

abbrev bob : Bytes
bob = bytes "bob"

abbrev first_host : Bytes
first_host = bytes "a.org"

abbrev second_host : Bytes
second_host = bytes "b.org"

abbrev third_host : Bytes
third_host = bytes "c.org"

abbrev rules : List (HttpRewriteRule Bytes)
rules = record { re = bytes "/"; replacement = bytes "/" } ∷ []

abbrev owned_by : Bytes → VirtualHost Bytes
owned_by id = record { identifier = id; rewrite = rules }

abbrev no_hosts : VirtualHosts Bytes
no_hosts = []

abbrev one : VirtualHosts Bytes
one = (first_host, owned_by alice) ∷ []

abbrev two : VirtualHosts Bytes
two = (second_host, owned_by bob) ∷ (first_host, owned_by alice) ∷ []

abbrev swapped : VirtualHosts Bytes
swapped = (first_host, owned_by alice) ∷ (second_host, owned_by bob) ∷ []

-- Alice moves: her old host is released.
abbrev moved : VirtualHosts Bytes
moved = (third_host, owned_by alice) ∷ (second_host, owned_by bob) ∷ []

no_hosts-IsWellFormed : IsWellFormed no_hosts
unfolding lookup
no_hosts-IsWellFormed = record { distinct = tt; one_host = λ h j x y p q same. cc }

one_added : add_host first_host alice rules no_hosts ≡ ok one
unfolding add_host release_others lookup insert ◌==◌
one_added = refl

one-IsWellFormed : IsWellFormed one
one-IsWellFormed =
    add_host-IsWellFormed first_host alice rules no_hosts one no_hosts-IsWellFormed one_added

two_added : add_host second_host bob rules one ≡ ok two
unfolding add_host release_others lookup insert ◌==◌
two_added = refl

two-IsWellFormed : IsWellFormed two
two-IsWellFormed = add_host-IsWellFormed second_host bob rules one two one-IsWellFormed two_added

moved_added : add_host third_host alice rules two ≡ ok moved
unfolding add_host release_others lookup insert ◌==◌
moved_added = refl

bob_added : add_host second_host bob rules no_hosts ≡ ok ((second_host, owned_by bob) ∷ [])
unfolding add_host release_others lookup insert ◌==◌
bob_added = refl

alice_added : add_host first_host alice rules ((second_host, owned_by bob) ∷ []) ≡ ok swapped
unfolding add_host release_others lookup insert ◌==◌
alice_added = refl

swapped-IsWellFormed : IsWellFormed swapped
swapped-IsWellFormed =
    add_host-IsWellFormed first_host alice rules ((second_host, owned_by bob) ∷ []) swapped
      (add_host-IsWellFormed second_host bob rules no_hosts _ no_hosts-IsWellFormed bob_added)
      alice_added

two-swapped : IsSameMap two swapped
unfolding lookup
two-swapped j = ground (arith, eq_iff first_host j, eq_iff second_host j)

add_host_lem_example :
    (get_identifier third_host moved ≡ some alice)
    × (get_host alice moved ≡ some third_host)
    × (get_virtual_host alice moved ≡ some (owned_by alice, third_host))
    × ((other : Bytes) → other ≢ alice → get_host other moved ≡ get_host other two)
add_host_lem_example = add_host_lem third_host alice rules two moved two-IsWellFormed moved_added

look_ups-IsSameMap_example :
    (get_virtual_host alice two ≡ get_virtual_host alice swapped)
    × (get_host alice two ≡ get_host alice swapped)
    × (get_identifier first_host two ≡ get_identifier first_host swapped)
look_ups-IsSameMap_example =
    look_ups-IsSameMap two swapped two-IsWellFormed swapped-IsWellFormed alice first_host
      two-swapped
