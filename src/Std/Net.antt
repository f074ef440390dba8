-- ===== src/Std/Net.antt =====
-- Package net: `SplitHostPort` and `JoinHostPort`; package strconv: `ParseUint(s, 10, 16)`. An error
-- is `none`.
pub mod Parts
use mylittleproxy.Base.{
  ℕ, ◌+◌, ◌-◌, ◌*◌, ◌^◌, Bytes, Bool, not, ◌&&◌, ◌||◌, Option, none, some, [], ◌∷◌, ◌++◌, all,
  nat_eq, leb, ltb, is_empty, if◌then◌else◌,
}
use mylittleproxy.Std.Text.{contains}

-- What stands before and behind the last, or the first, occurrence of a byte.
unfoldable pub cut_last : ℕ → Bytes → Option (Bytes × Bytes)
cut_last c [] = none
cut_last c (x ∷ s) = elim (cut_last c s) [
  | some (before, behind) ↦ some (x ∷ before, behind)
  | none ↦ if nat_eq x c then some ([], s) else none
]

unfoldable pub cut_first : ℕ → Bytes → Option (Bytes × Bytes)
cut_first c [] = none
cut_first c (x ∷ s) =
    let rest = cut_first c s in
    if nat_eq x c
    then some ([], s)
    else elim rest [ none ↦ none | some (before, behind) ↦ some (x ∷ before, behind) ]

abbrev pub has_bracket : Bytes → Bool
has_bracket s = contains b'[' s || contains b']' s

abbrev plain : Bytes → Bytes → Option (Bytes × Bytes)
plain host port =
    if contains b':' host || has_bracket host || has_bracket port then none else some (host, port)

-- What follows the first `]` must be the last colon and the port.
abbrev behind_bracket : Bytes → Bytes → Option (Bytes × Bytes)
behind_bracket host [] = none
behind_bracket host (c ∷ port) =
    if nat_eq c b':'
      && not (contains b':' port)
      && not (contains b'[' host)
      && not (has_bracket port)
    then some (host, port)
    else none

abbrev split_by : Bytes → Bytes → Bytes → Option (Bytes × Bytes)
split_by [] host port = none
split_by (c ∷ s) host port =
    if nat_eq c b'['
    then elim (cut_first b']' s) [
      | none ↦ none
      | some (inner, behind) ↦ behind_bracket inner behind
    ]
    else plain host port

unfoldable pub split_host_port : Bytes → Option (Bytes × Bytes)
unfolding cut_first cut_last
split_host_port s = elim (cut_last b':' s) [
  | none ↦ none
  | some (host, port) ↦ split_by s host port
]

unfoldable pub join_host_port : Bytes → Bytes → Bytes
join_host_port host port =
    if contains b':' host then b'[' ∷ (host ++ (b']' ∷ b':' ∷ port)) else host ++ (b':' ∷ port)

abbrev pub is_digit : ℕ → Bool
is_digit c = leb b'0' c && leb c b'9'

abbrev pub decimal : ℕ → Bytes → ℕ
decimal acc [] = acc
decimal acc (c ∷ s) = decimal (acc * 10 + (c - b'0')) s

unfoldable pub parse_uint16 : Bytes → Option ℕ
parse_uint16 s =
    if not (is_empty s) && all is_digit s && ltb (decimal 0 s) (2 ^ 16)
    then some (decimal 0 s)
    else none
