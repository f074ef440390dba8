-- ===== src/Tunnel/Headers/Tests.antt =====
-- Custom headers on a small request.
use mylittleproxy.Base.{
  ◌==◌, Bytes, bytes, ◌≡◌, refl, ◌≢◌, ◌↔◌, inr, false, none, some, [], ◌∷◌, Map, lookup, IsIn,
  arith,
}
use mylittleproxy.Std.Text.{equal_fold, to_lower}
use mylittleproxy.Std.Http.{canonical_key, canonical_from}
use mylittleproxy.Tunnel.Server.Samples.{knock}
use mylittleproxy.Tunnel.Headers.{is_host, apply_custom_headers, validate_custom_headers}
use mylittleproxy.Tunnel.Headers.Laws.{
  IsUnset, AreSendable, apply_custom_headers_lem, apply_custom_headers_order,
  validate_custom_headers_iff,
}

abbrev headers : Map Bytes
headers = (bytes "x-env", bytes "dev") ∷ (bytes "Accept", bytes "*") ∷ []

apply_custom_headers_lem_example :
    ((name value : Bytes)
      → is_host name ≡ false
      → IsIn (name, value) headers
      → lookup (canonical_key name) (apply_custom_headers headers knock).header ≡ some (value ∷ []))
    × ((key : Bytes)
        → IsUnset key headers
        → lookup key (apply_custom_headers headers knock).header ≡ lookup key knock.header)
unfolding canonical_key canonical_from
apply_custom_headers_lem_example =
    apply_custom_headers_lem headers knock ((inr (λ e. ground arith), tt), (tt, tt))

-- The same header in two spellings.
apply_custom_headers_order_example :
    apply_custom_headers ((bytes "X-Env", bytes "a") ∷ (bytes "x-env", bytes "b") ∷ []) knock
    ≢ apply_custom_headers ((bytes "x-env", bytes "b") ∷ (bytes "X-Env", bytes "a") ∷ []) knock
unfolding is_host equal_fold to_lower canonical_key canonical_from ◌==◌
apply_custom_headers_order_example =
    apply_custom_headers_order (bytes "X-Env") (bytes "x-env") (bytes "a") (bytes "b") knock refl
      refl refl (λ e. ground arith)

validate_custom_headers_iff_example : (validate_custom_headers headers ≡ none) ↔ AreSendable headers
validate_custom_headers_iff_example = validate_custom_headers_iff headers
