-- ===== src/Std/Http.antt =====
-- Packages net/http and net/textproto: the canonical form of a header name, and the status line of a
-- response.
use mylittleproxy.Base.{
  ℕ, ◌-◌, ◌+◌, Bytes, bytes, Bool, true, false, ◌&&◌, ◌||◌, Option, none, some, [], ◌∷◌, all,
  nat_eq, leb, if◌then◌else◌, length,
}
use mylittleproxy.Std.Text.{contains, is_upper}
use mylittleproxy.Std.Net.{cut_first, is_digit, decimal}

abbrev pub is_lower : ℕ → Bool
is_lower c = leb b'a' c && leb c b'z'

-- The bytes of a token of RFC 7230.
abbrev pub is_header_byte : ℕ → Bool
is_header_byte c = is_lower c || is_upper c || is_digit c || contains c (bytes "!#$%&'*+-.^_`|~")

abbrev canonical_byte : Bool → ℕ → ℕ
canonical_byte true c = if is_lower c then c - 32 else c
canonical_byte false c = if is_upper c then c + 32 else c

unfoldable pub canonical_from : Bool → Bytes → Bytes
canonical_from upper [] = []
canonical_from upper (c ∷ s) = canonical_byte upper c ∷ canonical_from (nat_eq c b'-') s

-- `CanonicalMIMEHeaderKey`, which `Header.Set` and `Header.Get` apply to a name.
unfoldable pub canonical_key : Bytes → Bytes
unfolding canonical_from
canonical_key s = if all is_header_byte s then canonical_from true s else s

unfoldable pub trim_spaces : Bytes → Bytes
trim_spaces [] = []
trim_spaces (c ∷ s) = let rest = trim_spaces s in if nat_eq c 32 then rest else c ∷ s

abbrev status_code : Bytes → Bytes → Option (ℕ × Bytes)
status_code code status =
    if nat_eq (length code) 3 && all is_digit code then some (decimal 0 code, status) else none

-- The code of a status: what stands before its first blank.
abbrev parse_status : Bytes → Option (ℕ × Bytes)
parse_status status = elim (cut_first 32 status) [
  | none ↦ status_code status status
  | some (code, reason) ↦ status_code code status
]

abbrev after_version : Option (Bytes × Bytes) → Option (ℕ × Bytes)
after_version none = none
after_version (some (version, rest)) = parse_status (trim_spaces rest)

-- `StatusCode` and `Status` of the response that `ReadResponse` makes of a first line, of version
-- HTTP/1.1; `none` where the line has another form.
unfoldable pub read_status_line : Bytes → Option (ℕ × Bytes)
unfolding cut_first trim_spaces
read_status_line s = elim (cut_first 10 s) [
  | none ↦ none
  | some (line, rest) ↦ after_version (cut_first 32 line)
]
