-- ===== src/Tunnel/VirtualHosts.antt =====
-- tunnel/virtualhost.go: the table from public host names to client identifiers. Each method holds
-- the table's mutex from start to end, so a call is one step. `R` is the type `*regexp.Regexp`.
pub mod Find
pub mod AddHost
pub mod Order
mod Tests
use mylittleproxy.Base.{
  Bytes, Bool, true, false, Option, none, some, List, [], ◌∷◌, Result, ok, err, not, ◌&&◌, ◌==◌,
  Map, lookup, insert, delete, if◌then◌else◌,
}

pub record HttpRewriteRule (R : Type 0) : Type 0 where
  pub re : R
  pub replacement : Bytes

pub record VirtualHost (R : Type 0) : Type 0 where
  pub identifier : Bytes
  pub rewrite : List (HttpRewriteRule R)

-- `host %q is already in use by another client`.
pub data HostInUse : Type 0 where
  host_in_use : Bytes → HostInUse

abbrev pub VirtualHosts : Type 0 → Type 0
VirtualHosts R = Map (VirtualHost R)

module _ {R : Type 0} where
  abbrev pub new_virtual_hosts : VirtualHosts R
  new_virtual_hosts = []

  -- The loop of `AddHost`: it deletes every other host of the identifier.
  unfoldable pub release_others : Bytes → Bytes → VirtualHosts R → VirtualHosts R
  release_others host identifier [] = []
  release_others host identifier ((hostname, hst) ∷ v) =
      let rest = release_others host identifier v in
      if hst.identifier == identifier && not (hostname == host)
      then rest
      else (hostname, hst) ∷ rest

  -- `ok && current.identifier != identifier`.
  abbrev pub is_claimed_by_other : Bytes → Option (VirtualHost R) → Bool
  is_claimed_by_other identifier none = false
  is_claimed_by_other identifier (some current) = not (current.identifier == identifier)

  -- The table after `AddHost`, or the error, with which the table stays as it was.
  unfoldable pub add_host :
      Bytes → Bytes → List (HttpRewriteRule R) → VirtualHosts R → Result HostInUse (VirtualHosts R)
  unfolding release_others
  add_host host identifier rewrites v =
      if is_claimed_by_other identifier (lookup host v)
      then err (host_in_use host)
      else ok (
          insert host (record { identifier = identifier; rewrite = rewrites })
            (release_others host identifier v))

  unfoldable pub delete_host : Bytes → VirtualHosts R → VirtualHosts R
  delete_host host v = delete host v

  unfoldable pub get_identifier : Bytes → VirtualHosts R → Option Bytes
  get_identifier host v = elim (lookup host v) [ none ↦ none | some ht ↦ some ht.identifier ]

  -- The results of `GetVirtualHost` without its flag: the host and its name.
  unfoldable pub get_virtual_host : Bytes → VirtualHosts R → Option (VirtualHost R × Bytes)
  get_virtual_host identifier [] = none
  get_virtual_host identifier ((host_id, hst) ∷ v) =
      if hst.identifier == identifier then some (hst, host_id) else get_virtual_host identifier v

  unfoldable pub get_host : Bytes → VirtualHosts R → Option Bytes
  get_host identifier [] = none
  get_host identifier ((hostname, hst) ∷ v) =
      if hst.identifier == identifier then some hostname else get_host identifier v
