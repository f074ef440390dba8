-- ===== src/Tunnel/ClientState/Names.antt =====
-- The texts of client states and of their changes: tunnel/clientstate_string.go, and `String` of a
-- change in tunnel/client.go.
use mylittleproxy.Base.{
  ℕ, ◌-◌, zero, suc, Bytes, bytes, ◌≡◌, refl, Option, none, some, List, [], ◌∷◌, ◌++◌, length,
  get_elem?, ltb, if◌then◌else◌,
}
use mylittleproxy.Tunnel.Errors.{Error}
use mylittleproxy.Tunnel.ClientState.{
  ClientState, client_unknown, client_started, client_connecting, client_connected,
  client_disconnected, client_closed, ClientStateChange,
}

-- The constants are numbered from 0.
abbrev number : ClientState → ℕ
number client_unknown = 0
number client_started = 1
number client_connecting = 2
number client_connected = 3
number client_disconnected = 4
number client_closed = 5

abbrev client_state_name : Bytes
client_state_name =
    bytes "ClientUnknownClientStartedClientConnectingClientConnectedClientDisconnectedClientClosed"

abbrev client_state_index : List ℕ
client_state_index = 0 ∷ 13 ∷ 26 ∷ 42 ∷ 57 ∷ 75 ∷ 87 ∷ []

abbrev drop : ℕ → Bytes → Bytes
drop zero s = s
drop (suc n) [] = []
drop (suc n) (c ∷ s) = drop n s

abbrev take : ℕ → Bytes → Bytes
take zero s = []
take (suc n) [] = []
take (suc n) (c ∷ s) = c ∷ take n s

-- `s[from:to]` for bounds that are there.
abbrev slice : Bytes → (from to : Option ℕ) → Bytes
slice s (some from) (some to) = take (to - from) (drop from s)
slice s none to = []
slice s (some from) none = []

-- `decimal` is what `%d` prints.
unfoldable pub state_string : (decimal : ℕ → Bytes) → ℕ → Bytes
state_string decimal i =
    if ltb i (length client_state_index - 1)
    then slice client_state_name (get_elem? client_state_index i)
        (get_elem? client_state_index (suc i))
    else bytes "ClientState(" ++ (decimal i ++ bytes ")")

abbrev constant_name : ClientState → Bytes
constant_name client_unknown = bytes "ClientUnknown"
constant_name client_started = bytes "ClientStarted"
constant_name client_connecting = bytes "ClientConnecting"
constant_name client_connected = bytes "ClientConnected"
constant_name client_disconnected = bytes "ClientDisconnected"
constant_name client_closed = bytes "ClientClosed"

-- Each state is printed by the name of its constant: the indices cut the names out whole.
pub state_string-number :
    (decimal : ℕ → Bytes) (s : ClientState) → state_string decimal (number s) ≡ constant_name s
unfolding state_string
state_string-number decimal client_unknown = refl
state_string-number decimal client_started = refl
state_string-number decimal client_connecting = refl
state_string-number decimal client_connected = refl
state_string-number decimal client_disconnected = refl
state_string-number decimal client_closed = refl

-- `error_text` is the `Error` method of an error.
abbrev error_suffix : (error_text : Error → Bytes) → Option Error → Bytes
error_suffix error_text none = []
error_suffix error_text (some e) = bytes " (" ++ (error_text e ++ bytes ")")

unfoldable pub change_string :
    (decimal : ℕ → Bytes) → (error_text : Error → Bytes) → ClientStateChange → Bytes
unfolding state_string
change_string decimal error_text cs =
    bytes "["
    ++ (cs.identifier
        ++ (bytes "] "
            ++ (state_string decimal (number cs.previous)
                ++ (bytes "->"
                    ++ (state_string decimal (number cs.current)
                        ++ error_suffix error_text cs.error)))))

-- What is printed of the first change of a client.
started_string :
    change_string
      (λ n. [])
      (λ e. [])
      (record {
        identifier = bytes "a";
        previous = client_unknown;
        current = client_started;
        error = none;
      })
    ≡ bytes "[a] ClientUnknown->ClientStarted"
unfolding change_string
started_string = refl
