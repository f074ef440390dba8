-- ===== src/Tunnel/Controls/Heap.antt =====
-- Reads of the heap of controls after a write or an allocation.
use mylittleproxy.Base.{
  ℕ, zero, suc, ◌≡◌, refl, Option, none, some, [], ◌∷◌, ◌++◌, get_elem?, length, arith, nat_eq,
  if◌then◌else◌,
}
use mylittleproxy.Tunnel.Controls.{Control, Heap, update}

abbrev pub apply_to : (Control → Control) → Option Control → Option Control
apply_to f none = none
apply_to f (some c) = some (f c)

pub get_elem?-update :
    (p q : ℕ) (f : Control → Control) (h : Heap)
    → get_elem? (update p f h) q
      ≡ (if nat_eq p q then apply_to f (get_elem? h q) else get_elem? h q)
get_elem?-update p q f [] = ground arith
get_elem?-update zero zero f (c ∷ h) = refl
get_elem?-update zero (suc q) f (c ∷ h) = ground arith
get_elem?-update (suc p) zero f (c ∷ h) = ground arith
get_elem?-update (suc p) (suc q) f (c ∷ h) = ground (arith, get_elem?-update p q f h)

pub get_elem?-append_old :
    (h xs : Heap) (q : ℕ) (c : Control) → get_elem? h q ≡ some c → get_elem? (h ++ xs) q ≡ some c
get_elem?-append_old [] xs q c e = cc
get_elem?-append_old (d ∷ h) xs zero c e = e
get_elem?-append_old (d ∷ h) xs (suc q) c e = get_elem?-append_old h xs q c e

pub get_elem?-append_new : (h : Heap) (c : Control) → get_elem? (h ++ c ∷ []) (length h) ≡ some c
get_elem?-append_new [] c = refl
get_elem?-append_new (d ∷ h) c = get_elem?-append_new h c
