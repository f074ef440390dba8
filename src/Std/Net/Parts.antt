-- ===== src/Std/Net/Parts.antt =====
-- The host that `SplitHostPort` gives is made of bytes of the address.
use mylittleproxy.Base.{
  ℕ, Bytes, ◌≡◌, inl, inr, some, [], ◌∷◌, arith, All, Option-cases, Bool-cases, nat_eq,
}
use mylittleproxy.Std.Net.{cut_last, cut_first, split_host_port, split_by, behind_bracket}

module _ (P : ℕ → Type 0) where
  cut_last-All : (c : ℕ) (s a b : Bytes) → cut_last c s ≡ some (a, b) → All P s → All P a
  unfolding cut_last
  cut_last-All c [] a b e l = absurd (cc)
  cut_last-All c (x ∷ s) a b e (l, ls) = elim (Option-cases (cut_last c s)) [
    | inl n ↦ elim (Bool-cases (nat_eq x c)) [
      | inl y ↦ let same : [] ≡ a = ground arith in rw (← same) tt
      | inr m ↦ absurd (ground arith)
    ]
    | inr ((before, behind), f) ↦
        let same : x ∷ before ≡ a = ground arith in
        rw (← same) (l, cut_last-All c s before behind f ls)
  ]

  cut_first-All : (c : ℕ) (s a b : Bytes) → cut_first c s ≡ some (a, b) → All P s → All P a
  unfolding cut_first
  cut_first-All c [] a b e l = absurd (cc)
  cut_first-All c (x ∷ s) a b e (l, ls) = elim (Bool-cases (nat_eq x c)) [
    | inl y ↦ let same : [] ≡ a = ground arith in rw (← same) tt
    | inr m ↦ elim (Option-cases (cut_first c s)) [
      | inl n ↦ absurd (ground arith)
      | inr ((before, behind), f) ↦
          let same : x ∷ before ≡ a = ground arith in
          rw (← same) (l, cut_first-All c s before behind f ls)
    ]
  ]

  behind_bracket-eq :
      (inner behind h p : Bytes) → behind_bracket inner behind ≡ some (h, p) → inner ≡ h
  behind_bracket-eq inner [] h p e = absurd (cc)
  behind_bracket-eq inner (c ∷ port) h p e = ground arith

  split_by-All :
      (s host port h p : Bytes)
      → split_by s host port ≡ some (h, p)
      → All P s
      → All P host
      → All P h
  split_by-All [] host port h p e l k = absurd (cc)
  split_by-All (c ∷ s) host port h p e (l, ls) k = elim (Bool-cases (nat_eq c b'[')) [
    | inr n ↦ let same : host ≡ h = ground arith in rw (← same) k
    | inl y ↦ elim (Option-cases (cut_first b']' s)) [
      | inl n ↦ absurd (ground arith)
      | inr ((inner, behind), f) ↦
          let bracketed : behind_bracket inner behind ≡ some (h, p) = ground arith in
          rw (← behind_bracket-eq inner behind h p bracketed)
            (cut_first-All b']' s inner behind f ls)
    ]
  ]

  pub split_host_port-All : (s h p : Bytes) → split_host_port s ≡ some (h, p) → All P s → All P h
  unfolding split_host_port
  split_host_port-All s h p e l = elim (Option-cases (cut_last b':' s)) [
    | inl n ↦ absurd (ground arith)
    | inr ((host, port), f) ↦
        let split : split_by s host port ≡ some (h, p) = ground arith in
        split_by-All s host port h p split l (cut_last-All b':' s host port f l)
  ]
