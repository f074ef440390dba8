-- ===== src/Tunnel/Headers.antt =====
-- tunnel/customheaders.go: the headers that a client sets on each request for the local server.
pub mod Tokens
pub mod Laws
mod Tests
use mylittleproxy.Base.{
  ℕ, Bytes, bytes, Bool, true, ◌&&◌, ◌||◌, not, Option, none, some, [], ◌∷◌, Map, insert, all, leb,
  is_empty, if◌then◌else◌,
}
use mylittleproxy.Std.Text.{equal_fold, contains}
use mylittleproxy.Std.Http.{canonical_key}
use mylittleproxy.Tunnel.Errors.{Error, header_name_empty, header_name_invalid, header_value_broken}
use mylittleproxy.Tunnel.Server.Connect.{Request}

-- `strings.EqualFold(name, "Host")`.
unfoldable pub is_host : Bytes → Bool
is_host name = equal_fold name (bytes "Host")

-- One round of the loop of `applyCustomHeaders`.
unfoldable pub apply_custom_header : (name value : Bytes) → Request → Request
unfolding is_host
apply_custom_header name value r =
    if is_host name
    then record r { host = value }
    else record r { header = insert (canonical_key name) (value ∷ []) r.header }

unfoldable pub apply_custom_headers : Map Bytes → Request → Request
apply_custom_headers [] r = r
apply_custom_headers ((name, value) ∷ headers) r =
    apply_custom_headers headers (apply_custom_header name value r)

-- A byte beyond ASCII belongs to no rune that is a token's, and is no token byte here.
unfoldable pub is_token_rune : ℕ → Bool
is_token_rune r =
    (leb b'a' r && leb r b'z')
    || (leb b'A' r && leb r b'Z')
    || (leb b'0' r && leb r b'9')
    || contains r (bytes "!#$%&'*+-.^_`|~")

unfoldable pub valid_header_name : Bytes → Bool
unfolding is_token_rune
valid_header_name name = all is_token_rune name

abbrev has_line_break : Bytes → Bool
has_line_break value = contains b'\r' value || contains b'\n' value

-- One round of the loop of `validateCustomHeaders`.
unfoldable pub validate_custom_header : (name value : Bytes) → Option Error
unfolding valid_header_name
validate_custom_header name value =
    if is_empty name
    then some header_name_empty
    else if is_empty (canonical_key name) || not (valid_header_name name)
    then some (header_name_invalid name)
    else if has_line_break value
    then some (header_value_broken name)
    else none

unfoldable pub validate_custom_headers : Map Bytes → Option Error
unfolding validate_custom_header
validate_custom_headers [] = none
validate_custom_headers ((name, value) ∷ headers) =
    let rest = validate_custom_headers headers in
    elim (validate_custom_header name value) [ some e ↦ some e | none ↦ rest ]
