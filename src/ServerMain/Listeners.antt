-- ===== src/ServerMain/Listeners.antt =====
-- server/listeners.go: the check that the control listener is not the public one. `serve`
-- is in Program.
use mylittleproxy.Base.{
  Bytes, bytes, ◌≡◌, ◌≢◌, ◌⊎◌, inl, inr, Bool, true, false, not, ◌||◌, Option, none, some, [],
  arith, ◌==◌, eq_iff, Option-cases, is_empty, if◌then◌else◌,
}
use mylittleproxy.Std.Net.{split_host_port}

unfoldable pub is_all_interfaces : Bytes → Bool
is_all_interfaces host = is_empty host || host == bytes "0.0.0.0" || host == bytes "::"

abbrev clash : Option (Bytes × Bytes) → Option (Bytes × Bytes) → Bool
clash none _ = false
clash (some l) none = false
clash (some (listen_host, listen_port)) (some (control_host, control_port)) =
    if not (listen_port == control_port)
    then false
    else listen_host == control_host
      || is_all_interfaces listen_host
      || is_all_interfaces control_host

unfoldable pub same_listen_address : (listen control : Bytes) → Bool
same_listen_address listen control = clash (split_host_port listen) (split_host_port control)

-- Whether `checkListenAddresses` gives no error.
unfoldable pub check_listen_addresses : (listen control : Bytes) → Bool
unfolding same_listen_address
check_listen_addresses listen control =
    if is_empty control then true else not (same_listen_address listen control)

eq_symm : (a b : Bytes) → (a == b) ≡ (b == a)
eq_symm a b = ground (arith, eq_iff a b, eq_iff b a)

-- Which of the two addresses is the public one makes no difference to the test.
pub same_listen_address_comm : (a b : Bytes) → same_listen_address a b ≡ same_listen_address b a
unfolding same_listen_address
same_listen_address_comm a b = elim (Option-cases (split_host_port a)) [
  | inl n ↦ elim (Option-cases (split_host_port b)) [
    | inl m ↦ rw (n, m)
    | inr ((k, q), m) ↦ rw (n, m)
  ]
  | inr ((h, p), n) ↦ elim (Option-cases (split_host_port b)) [
    | inl m ↦ rw (n, m)
    | inr ((k, q), m) ↦ ground (arith, n, m, eq_symm h k, eq_symm p q)
  ]
]

-- Two addresses with a host and a port each that pass are on different ports, or on two different
-- hosts neither of which means every interface.
pub check_listen_addresses_sound :
    (listen control h p k q : Bytes)
    → split_host_port listen ≡ some (h, p)
    → split_host_port control ≡ some (k, q)
    → control ≢ []
    → check_listen_addresses listen control ≡ true
    → (p ≢ q) ⊎ ((h ≢ k) × (is_all_interfaces h ≡ false) × (is_all_interfaces k ≡ false))
unfolding check_listen_addresses
check_listen_addresses_sound listen control h p k q a b ne e =
    ground (arith, a, b, eq_iff p q, eq_iff h k)
