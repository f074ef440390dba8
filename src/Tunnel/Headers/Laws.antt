-- ===== src/Tunnel/Headers/Laws.antt =====
-- What a request carries after the custom headers are set, and which headers are accepted.
use mylittleproxy.Base.{
  Bytes, ◌≡◌, refl, sym, ap, ◌≢◌, ◌↔◌, ◌⊎◌, inl, inr, true, false, none, some, [], ◌∷◌, Map, lookup,
  lookup-insert, eq_iff, eq_refl, arith, is_empty, IsIn, Bool-cases, Option-cases, ◌∙◌,
  if◌then◌else◌, ◌==◌,
}
use mylittleproxy.Std.Text.{contains}
use mylittleproxy.Std.Http.{canonical_key}
use mylittleproxy.Tunnel.Server.Connect.{Request}
use mylittleproxy.Tunnel.Headers.{
  is_host, apply_custom_header, apply_custom_headers, validate_custom_header,
  validate_custom_headers,
}
use mylittleproxy.Tunnel.Headers.Tokens.{IsToken, all-is_token_rune}

-- No entry sets the header of that canonical name.
abbrev pub IsUnset : Bytes → Map Bytes → Type 0
IsUnset key [] = Unit
IsUnset key ((name, value) ∷ headers) =
    ((is_host name ≡ true) ⊎ (canonical_key name ≢ key)) × IsUnset key headers

-- No two entries set the same header.
abbrev pub HasDistinctNames : Map Bytes → Type 0
HasDistinctNames [] = Unit
HasDistinctNames ((name, value) ∷ headers) =
    IsUnset (canonical_key name) headers × HasDistinctNames headers

lookup-apply_custom_header :
    (name value key : Bytes) (r : Request)
    → is_host name ≡ false
    → lookup key (apply_custom_header name value r).header
      ≡ (if canonical_key name == key then some (value ∷ []) else lookup key r.header)
unfolding apply_custom_header
lookup-apply_custom_header name value key r n =
    rw (n, apply_custom_header) (lookup-insert (canonical_key name) key (value ∷ []) r.header)

header-apply_custom_header :
    (name value : Bytes) (r : Request)
    → is_host name ≡ true
    → (apply_custom_header name value r).header ≡ r.header
unfolding apply_custom_header
header-apply_custom_header name value r h = rw (h, apply_custom_header)

lookup-IsUnset :
    (key : Bytes) (headers : Map Bytes) (r : Request)
    → IsUnset key headers
    → lookup key (apply_custom_headers headers r).header ≡ lookup key r.header
unfolding apply_custom_headers
lookup-IsUnset key [] r u = refl
lookup-IsUnset key ((name, value) ∷ headers) r (here, u) =
    let rest = lookup-IsUnset key headers (apply_custom_header name value r) u in
    elim (Bool-cases (is_host name)) [
      | inl h ↦ rest ∙ rw (header-apply_custom_header name value r h)
      | inr n ↦
          rest
          ∙ ground (
            arith,
            lookup-apply_custom_header name value key r n,
            eq_iff (canonical_key name) key,
          )
    ]

lookup-IsIn :
    (name value : Bytes) (headers : Map Bytes) (r : Request)
    → HasDistinctNames headers
    → is_host name ≡ false
    → IsIn (name, value) headers
    → lookup (canonical_key name) (apply_custom_headers headers r).header ≡ some (value ∷ [])
unfolding apply_custom_headers
lookup-IsIn name value [] r d n i = absurd i
lookup-IsIn name value ((other, x) ∷ headers) r (u, d) n (inr i) =
    lookup-IsIn name value headers (apply_custom_header other x r) d n i
lookup-IsIn name value ((other, x) ∷ headers) r (u, d) n (inl e) =
    let same : other ≡ name = cc in
    let found : x ≡ value = cc in
    let unset : IsUnset (canonical_key name) headers = rw (← same) u in
    lookup-IsUnset (canonical_key name) headers (apply_custom_header other x r) unset
    ∙ rw (
      same,
      found,
      lookup-apply_custom_header name value (canonical_key name) r n,
      eq_refl (canonical_key name),
    )

-- Setting custom headers of distinct canonical names: each of them but a host replaces what the
-- request had under its name, and every other header is as before.
pub apply_custom_headers_lem :
    (headers : Map Bytes) (r : Request)
    → HasDistinctNames headers
    → ((name value : Bytes)
        → is_host name ≡ false
        → IsIn (name, value) headers
        → lookup (canonical_key name) (apply_custom_headers headers r).header ≡ some (value ∷ []))
      × ((key : Bytes)
          → IsUnset key headers
          → lookup key (apply_custom_headers headers r).header ≡ lookup key r.header)
apply_custom_headers_lem headers r d = (
  λ name value n i. lookup-IsIn name value headers r d n i,
  λ key u. lookup-IsUnset key headers r u,
)

lookup-apply_last :
    (name other x y : Bytes) (r : Request)
    → is_host other ≡ false
    → lookup (canonical_key other) (apply_custom_headers ((name, x) ∷ (other, y) ∷ []) r).header
      ≡ some (y ∷ [])
unfolding apply_custom_headers
lookup-apply_last name other x y r m = rw (
  lookup-apply_custom_header other y (canonical_key other) (apply_custom_header name x r) m,
  eq_refl (canonical_key other),
)

-- Of two names with one canonical form and different values, the one that the loop visits last
-- wins, so the request depends on the order in which the map is visited.
pub apply_custom_headers_order :
    (name other x y : Bytes) (r : Request)
    → is_host name ≡ false
    → is_host other ≡ false
    → canonical_key name ≡ canonical_key other
    → x ≢ y
    → apply_custom_headers ((name, x) ∷ (other, y) ∷ []) r
      ≢ apply_custom_headers ((other, y) ∷ (name, x) ∷ []) r
apply_custom_headers_order name other x y r n m same differ e =
    let last = lookup-apply_last name other x y r m in
    let first = lookup-apply_last other name y x r n in
    let moved : lookup (canonical_key other)
          (apply_custom_headers ((other, y) ∷ (name, x) ∷ []) r).header
        ≡ some (x ∷ []) =
      rw (← same) first in
    let both : some (y ∷ []) ≡ some (x ∷ []) =
      sym last ∙ ap (λ t. lookup (canonical_key other) t.header) e ∙ moved in
    differ (cc)

-- A name that can be sent, and a value that cannot start another header.
pub record IsSendable (name value : Bytes) : Type 0 where
  pub is_token : IsToken name
  pub no_return : contains b'\r' value ≡ false
  pub no_newline : contains b'\n' value ≡ false

abbrev pub AreSendable : Map Bytes → Type 0
AreSendable [] = Unit
AreSendable ((name, value) ∷ headers) = IsSendable name value × AreSendable headers

canonical_key-ne : (name : Bytes) → name ≢ [] → is_empty (canonical_key name) ≡ false
unfolding canonical_key
canonical_key-ne [] ne = absurd (ne refl)
canonical_key-ne (c ∷ s) ne = ground arith

validate_custom_header_iff :
    (name value : Bytes) → (validate_custom_header name value ≡ none) ↔ IsSendable name value
unfolding validate_custom_header
validate_custom_header_iff [] value = (λ e. absurd (ground arith), λ v. absurd (v.is_token.0 refl))
validate_custom_header_iff (c ∷ s) value = (
  λ e. record {
    is_token = (λ z. cc, (all-is_token_rune (c ∷ s)).0 (ground arith));
    no_return = ground arith;
    no_newline = ground arith;
  },
  λ v. ground (
    arith,
    canonical_key-ne (c ∷ s) v.is_token.0,
    (all-is_token_rune (c ∷ s)).1 v.is_token.1,
    v.no_return,
    v.no_newline,
  ),
)

-- Custom headers are accepted exactly if every name is a token of RFC 9110, that is, not empty and of
-- the characters that are listed there only, and no value has a line break, in whatever order they are visited.
pub validate_custom_headers_iff :
    (headers : Map Bytes) → (validate_custom_headers headers ≡ none) ↔ AreSendable headers
unfolding validate_custom_headers
validate_custom_headers_iff [] = (λ e. tt, λ s. refl)
validate_custom_headers_iff ((name, value) ∷ headers) =
    let (to, from) = validate_custom_headers_iff headers in
    let (head, tail) = validate_custom_header_iff name value in
    elim (Option-cases (validate_custom_header name value)) [
      | inl n ↦ (λ e. (head n, to (ground arith)), λ s. ground (arith, from s.1))
      | inr (x, f) ↦ (λ e. absurd (ground arith), λ s. absurd (ground (arith, tail s.0)))
    ]
