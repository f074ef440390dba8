-- ===== src/Tunnel/Callbacks.antt =====
-- `callbacks` of tunnel/util.go: functions that run once, when a client connects or disconnects.
use mylittleproxy.Base.{
  ℕ, Bytes, Option, none, some, Map, lookup, insert, delete, Result, ok, err, List, [], ◌∷◌,
}
use mylittleproxy.Tunnel.Errors.{Error, nil_callback}

-- A `func() error`: which function it is, and what it returns when it is called. It is taken not to
-- call back into the server.
pub record Callback : Type 0 where
  pub fn : ℕ
  pub returns : Option Error

-- `none` is a nil function.
abbrev pub Callbacks : Type 0
Callbacks = Map (Option Callback)

unfoldable pub add : Bytes → Option Callback → Callbacks → Callbacks
add identifier fn c = insert identifier fn c

abbrev checked : Bytes → Option Callback → Result Error (Option Callback)
checked identifier none = err (nil_callback identifier)
checked identifier (some fn) = ok (some fn)

-- The function to call, if any, and the map without it.
unfoldable pub pop : Bytes → Callbacks → Result Error (Option Callback) × Callbacks
pop identifier c = elim (lookup identifier c) [
  | none ↦ (ok none, c)
  | some fn ↦ (checked identifier fn, delete identifier c)
]

abbrev called : Result Error (Option Callback) → Option Error × List ℕ
called (err e) = (some e, [])
called (ok none) = (none, [])
called (ok (some fn)) = (fn.returns, fn.fn ∷ [])

-- The error that `call` returns, the functions that it ran, and the map that is left.
unfoldable pub call : Bytes → Callbacks → Option Error × List ℕ × Callbacks
unfolding pop
call identifier c =
    let popped = pop identifier c in ((called popped.0).0, (called popped.0).1, popped.1)
