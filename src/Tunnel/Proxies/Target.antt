-- ===== src/Tunnel/Proxies/Target.antt =====
-- Where the local proxies connect to.
use mathlib.Core.List.{append_assoc}
use mylittleproxy.Base.{
  ℕ, Bytes, bytes, ◌≡◌, refl, sym, ap, ◌∙◌, inl, inr, Bool, true, false, none, some, [], ◌∷◌, ◌++◌,
  arith, all, is_empty, Bool-cases, if◌then◌else◌,
}
use mylittleproxy.Std.Text.{contains}
use mylittleproxy.Std.Net.{cut_last, join_host_port, is_digit}
use mylittleproxy.Tunnel.Proxies.Ws.{split_host, unbracketed}

cut_last-none : (c : ℕ) (s : Bytes) → contains c s ≡ false → cut_last c s ≡ none
unfolding cut_last
cut_last-none c [] h = refl
cut_last-none c (x ∷ s) h = ground (arith, cut_last-none c s)

cut_last-append :
    (c : ℕ) (a b : Bytes) → contains c b ≡ false → cut_last c (a ++ (c ∷ b)) ≡ some (a, b)
unfolding cut_last
cut_last-append c [] b h = ground (arith, cut_last-none c b h)
cut_last-append c (x ∷ a) b h = rw (cut_last-append c a b h, cut_last)

digits-contains : (p : Bytes) → all is_digit p ≡ true → contains b':' p ≡ false
digits-contains [] h = refl
digits-contains (c ∷ p) h = ground (arith, digits-contains p)

split_host-plain :
    (h p : Bytes) → all is_digit p ≡ true → split_host (h ++ (b':' ∷ p)) ≡ (unbracketed h, p)
unfolding split_host
split_host-plain h p d = rw (cut_last-append b':' h p (digits-contains p d), d, split_host)

unbracketed_lem : (h : Bytes) → unbracketed (b'[' ∷ (h ++ (b']' ∷ []))) ≡ h
unbracketed_lem h = rw (cut_last-append b']' h [] refl)

-- A name and a port of digits, joined for dialling, are the name and port of the address.
pub split_host-join_host_port :
    (h p : Bytes)
    → all is_digit p ≡ true
    → unbracketed h ≡ h
    → split_host (join_host_port h p) ≡ (h, p)
unfolding join_host_port
split_host-join_host_port h p d plain = elim (Bool-cases (contains b':' h)) [
  | inr n ↦ rw (n, join_host_port) (split_host-plain h p d ∙ ap (λ x. (x, p)) plain)
  | inl y ↦
      rw (y, join_host_port)
        (ap (λ x. split_host (b'[' ∷ x)) (sym (append_assoc h (b']' ∷ []) (b':' ∷ p)))
          ∙ split_host-plain (b'[' ∷ (h ++ (b']' ∷ []))) p d
          ∙ ap (λ x. (x, p)) (unbracketed_lem h))
]

-- What RFC 6455 and RFC 9110 say of a scheme: whether it is spoken over TLS, and its port.
pub data IsScheme : (scheme : Bytes) → (use_tls : Bool) → (port : Bytes) → Type 0 where
  is_ws : (s p : Bytes) → s ≡ bytes "ws" → p ≡ bytes "80" → IsScheme s false p
  is_http : (s p : Bytes) → s ≡ bytes "http" → p ≡ bytes "80" → IsScheme s false p
  is_wss : (s p : Bytes) → s ≡ bytes "wss" → p ≡ bytes "443" → IsScheme s true p
  is_https : (s p : Bytes) → s ≡ bytes "https" → p ≡ bytes "443" → IsScheme s true p

abbrev pub or_port : (standard port : Bytes) → Bytes
or_port standard port = if is_empty port then standard else port
