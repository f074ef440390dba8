-- ===== src/Tunnel/Controls.antt =====
-- tunnel/control.go. A `*control` is shared between the map `controls`, the goroutine that listens
-- on it and the requests that send over it, so controls live on a heap and a pointer is a number.
pub mod Heap
use mylittleproxy.Base.{
  ℕ, zero, suc, Bytes, Bool, true, false, Option, none, some, List, [], ◌∷◌, ◌++◌, get_elem?,
  length, Map, lookup, insert, delete, if◌then◌else◌,
}
use mylittleproxy.Tunnel.Errors.{Error, control_closed, encoder_missing}

-- `nc` is the connection under the control, `has_enc` says that `enc` is not nil.
pub record Control : Type 0 where
  pub nc : Option ℕ
  pub has_enc : Bool
  pub identifier : Bytes
  pub closed : Bool

abbrev pub Heap : Type 0
Heap = List Control

abbrev pub new_control : ℕ → Control
new_control nc = record { nc = some nc; has_enc = true; identifier = []; closed = false }

-- A change to the object at a pointer.
abbrev pub update : ℕ → (Control → Control) → Heap → Heap
update p f [] = []
update zero f (c ∷ h) = f c ∷ h
update (suc p) f (c ∷ h) = c ∷ update p f h

-- What `send` returns, when `Encode` would give `encoded`; `false` beside it says that nothing was
-- written.
unfoldable pub send : Control → Option Error → Option Error × Bool
send c encoded =
    if c.has_enc
    then if c.closed then (some control_closed, false) else (encoded, true)
    else (some encoder_missing, false)

-- `Close` on the object: without a connection it does nothing, not even set the flag.
abbrev pub mark_closed : Control → Control
mark_closed c = elim c.nc [ none ↦ c | some nc ↦ record c { closed = true } ]

-- The connection that `Close` closes.
abbrev pub closed_conn : Option Control → List ℕ
closed_conn none = []
closed_conn (some c) = elim c.nc [ none ↦ [] | some nc ↦ nc ∷ [] ]

abbrev pub Controls : Type 0
Controls = Map ℕ

abbrev pub get_control : Bytes → Controls → Option ℕ
get_control identifier c = lookup identifier c

-- `addControl` writes the identifier into the object and the pointer into the map.
abbrev pub identify : Bytes → Control → Control
identify identifier c = record c { identifier = identifier }
