-- ===== src/Tunnel/Headers/Tokens.antt =====
-- The characters that tunnel/customheaders.go lets into a header's name are those of a token.
use mylittleproxy.Base.{
  ℕ, zero, suc, ◌≤◌, ◌<◌, ◌&&◌, Bool, not, ltb, nat_eq, Bytes, bytes, All, ◌≡◌, refl, sym, ◌≢◌, ◌↔◌,
  inl, inr, true, false, [], ◌∷◌, arith, all, Bool-cases, ◌∙◌,
}
use mylittleproxy.Std.Text.{contains}
use mylittleproxy.Tunnel.Headers.{is_token_rune}

-- The characters of a token of RFC 9110: its punctuation, the digits and the letters.
abbrev pub token_chars : Bytes
token_chars = bytes "!#$%&'*+-.^_`|~0123456789ABCDEFGHIJKLMNOPQRSTUVWXYZabcdefghijklmnopqrstuvwxyz"

abbrev pub IsToken : Bytes → Type 0
IsToken name = (name ≢ []) × All (λ c. contains c token_chars ≡ true) name

abbrev same_bool : Bool → Bool → Bool
same_bool true b = b
same_bool false b = not b

same_bool-eq : (a b : Bool) → same_bool a b ≡ true → a ≡ b
same_bool-eq a b e = ground arith

contains-above : (c : ℕ) (s : Bytes) → All (λ x. x < 128) s → 128 ≤ c → contains c s ≡ false
contains-above c [] v l = refl
contains-above c (x ∷ s) (b, v) l = ground (arith, contains-above c s v l)

is_token_rune-above : (c : ℕ) → 128 ≤ c → is_token_rune c ≡ false
unfolding is_token_rune
is_token_rune-above c above =
    ground (arith, contains-above c (bytes "!#$%&'*+-.^_`|~") (omega arith) above)

-- The test of the code and the list agree on all numbers below `n`.
agree_below : ℕ → Bool
agree_below zero = true
agree_below (suc n) = same_bool (is_token_rune n) (contains n token_chars) && agree_below n

agree_table : agree_below 128 ≡ true
unfolding agree_below is_token_rune
agree_table = refl

agree_below-eq : (n c : ℕ) → agree_below n ≡ true → c < n → is_token_rune c ≡ contains c token_chars
unfolding agree_below
agree_below-eq zero c e l = absurd (omega arith)
agree_below-eq (suc n) c e l = elim (Bool-cases (nat_eq c n)) [
  | inl y ↦
      let same : c ≡ n = ground arith in
      rw same (same_bool-eq (is_token_rune n) (contains n token_chars) (ground arith))
  | inr other ↦ agree_below-eq n c (ground arith) (ground arith)
]

is_token_rune-contains : (c : ℕ) → is_token_rune c ≡ contains c token_chars
is_token_rune-contains c = elim (Bool-cases (ltb c 128)) [
  | inl y ↦ agree_below-eq 128 c agree_table (ground arith)
  | inr n ↦
      let above : 128 ≤ c = ground arith in
      is_token_rune-above c above ∙ sym (contains-above c token_chars (omega arith) above)
]

pub all-is_token_rune :
    (name : Bytes) → (all is_token_rune name ≡ true) ↔ All (λ c. contains c token_chars ≡ true) name
all-is_token_rune [] = (λ e. tt, λ v. refl)
all-is_token_rune (c ∷ name) =
    let (to, from) = all-is_token_rune name in
    let same = is_token_rune-contains c in
    (λ e. (sym same ∙ ground arith, to (ground arith)), λ v. ground (arith, same ∙ v.0, from v.1))
