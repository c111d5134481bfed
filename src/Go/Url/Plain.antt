-- ===== src/Go/Url/Plain.antt =====
-- Which texts `QueryUnescape` leaves as they are.
use pmap.Base.{
  ℕ, suc, ◌+◌, ◌*◌, ◌≤◌, ◌≡◌, refl, Bool, true, false, ◌&&◌, inl, inr, [], ◌∷◌, Bytes, length,
  arith, ◌==◌, nat_eq, if◌then◌else◌, Bool-cases,
}
use pmap.Go.Url.{is_hex, unhex, Unescaped, text, malformed, before, plus, unescape}

-- No escape and no plus sign.
abbrev pub is_plain : Bytes → Bool
is_plain [] = true
is_plain (c ∷ s) = if c == b'%' then false else if c == b'+' then false else is_plain s

abbrev pub AtMost : ℕ → Unescaped → Type 0
AtMost n (text t) = length t ≤ n
AtMost n (malformed bad) = Unit

AtMost-before : (n c : ℕ) (u : Unescaped) → AtMost n u → AtMost (suc n) (before c u)
AtMost-before n c (text t) h = omega arith
AtMost-before n c (malformed bad) h = tt

AtMost-suc : (n : ℕ) (u : Unescaped) → AtMost n u → AtMost (suc n) u
AtMost-suc n (text t) h = omega arith
AtMost-suc n (malformed bad) h = tt

-- Decoding makes no text longer.
pub unescape-AtMost : (s : Bytes) → AtMost (length s) (unescape s)
unfolding unescape
unescape-AtMost [] = omega arith
unescape-AtMost (c ∷ []) = elim (Bool-cases (c == b'%')) [
  | inl escape ↦ rw escape tt
  | inr other ↦ rw other (omega arith)
]
unescape-AtMost (c ∷ d ∷ []) =
    let ih = unescape-AtMost (d ∷ []) in
    elim (Bool-cases (c == b'%')) [
      | inl escape ↦ rw escape tt
      | inr other ↦ rw other (AtMost-before _ (plus c) _ ih)
    ]
unescape-AtMost (c ∷ d ∷ e ∷ s) =
    let ih = unescape-AtMost (d ∷ e ∷ s) in
    let short = unescape-AtMost s in
    elim (Bool-cases (c == b'%')) [
      | inl escape ↦ elim (Bool-cases (is_hex d && is_hex e)) [
        | inl hex ↦
            rw (escape, hex)
              (AtMost-suc _ _ (AtMost-suc _ _ (AtMost-before _ (unhex d * 16 + unhex e) _ short)))
        | inr bad ↦ rw (escape, bad) tt
      ]
      | inr other ↦ rw other (AtMost-before _ (plus c) _ ih)
    ]

pub unescape_of_plain : (s : Bytes) → is_plain s ≡ true → unescape s ≡ text s
unfolding unescape
unescape_of_plain [] h = refl
unescape_of_plain (c ∷ []) h = ground arith
unescape_of_plain (c ∷ d ∷ []) h = ground (arith, unescape_of_plain (d ∷ []))
unescape_of_plain (c ∷ d ∷ e ∷ s) h = ground (arith, unescape_of_plain (d ∷ e ∷ s))

before-eq-text :
    (c x : ℕ) (u : Unescaped) (t : Bytes) → before c u ≡ text (x ∷ t) → (c ≡ x) × (u ≡ text t)
before-eq-text c x (text s) t h = ground arith
before-eq-text c x (malformed bad) t h = absurd (cc)

longer : (d e : ℕ) (s : Bytes) → unescape s ≡ text (d ∷ e ∷ s) → ⊥
longer d e s h = let k = unescape-AtMost s in absurd (omega (arith, rw h at k))

plain_head :
    (c : ℕ) (s : Bytes)
    → (c == b'%') ≡ false
    → plus c ≡ c
    → is_plain s ≡ true
    → is_plain (c ∷ s) ≡ true
plain_head c s other same h = ground arith

-- A text that is left as it is has no escape and no plus sign.
pub is_plain_of_unescape : (s : Bytes) → unescape s ≡ text s → is_plain s ≡ true
unfolding unescape
is_plain_of_unescape [] h = refl
is_plain_of_unescape (c ∷ []) h = ground arith
is_plain_of_unescape (c ∷ d ∷ []) h =
    ground
      (arith, is_plain_of_unescape (d ∷ []), before-eq-text (plus c) c (unescape (d ∷ [])) (d ∷ []))
is_plain_of_unescape (c ∷ d ∷ e ∷ s) h =
    let ih = is_plain_of_unescape (d ∷ e ∷ s) in
    elim (Bool-cases (c == b'%')) [
      | inl escape ↦ elim (Bool-cases (is_hex d && is_hex e)) [
        | inl hex ↦ absurd (longer d e s (before-eq-text _ c _ _ (rw (escape, hex) at h)).1)
        | inr bad ↦ absurd (let k = rw (escape, bad) at h in cc)
      ]
      | inr other ↦
          let (same, rest) = before-eq-text (plus c) c _ (d ∷ e ∷ s) (rw other at h) in
          plain_head c (d ∷ e ∷ s) other same (ih rest)
    ]
