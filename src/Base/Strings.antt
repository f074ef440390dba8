-- ===== src/Base/Strings.antt =====
-- Go strings: immutable sequences of bytes. A literal of the source is `bytes "…"` (all are ASCII).
use Prim.Native.Nat.{ℕ}
use Prim.Native.Char.{code}
use Prim.Native.String.{String}
use mathlib.Core.Path.{◌≡◌, refl}
use mathlib.Core.Logic.{◌↔◌}
use mathlib.Core.Bool.{Bool, true, false, ◌&&◌}
use mathlib.Core.List.{List, [], ◌∷◌}
use native.Mathlib.Omega.{arith}
use mylittleproxy.Base.Tests.{nat_eq}

abbrev pub Bytes : Type 0
Bytes = List ℕ

abbrev pub bytes : String → Bytes
bytes String.[] = []
bytes (String.◌∷◌ c s) = code c ∷ bytes s

-- `a == b` on strings.
infix 50 ◌==◌
unfoldable pub ◌==◌ : Bytes → Bytes → Bool
[] == [] = true
[] == (_ ∷ _) = false
(_ ∷ _) == [] = false
(x ∷ xs) == (y ∷ ys) = nat_eq x y && (xs == ys)

pub eq_refl : (a : Bytes) → (a == a) ≡ true
unfolding ◌==◌
eq_refl [] = refl
eq_refl (x ∷ xs) = ground (arith, eq_refl xs)

eq_sound : (a b : Bytes) → (a == b) ≡ true → a ≡ b
unfolding ◌==◌
eq_sound [] [] h = refl
eq_sound [] (y ∷ ys) h = cc
eq_sound (x ∷ xs) [] h = cc
eq_sound (x ∷ xs) (y ∷ ys) h = ground (arith, eq_sound xs ys)

pub eq_iff : (a b : Bytes) → ((a == b) ≡ true) ↔ (a ≡ b)
eq_iff a b = (eq_sound a b, λ e. ground (arith, eq_refl a))

-- `s == ""`.
abbrev pub is_empty : Bytes → Bool
is_empty [] = true
is_empty (_ ∷ _) = false
