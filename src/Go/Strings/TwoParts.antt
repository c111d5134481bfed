-- ===== src/Go/Strings/TwoParts.antt =====
-- When `Split` gives one part, or two.
use mathlib.Core.List.{append_assoc, append-nil}
use pmap.Base.{
  ℕ, zero, ◌-◌, ◌≡◌, ◌↔◌, ◌∙◌, sym, ap, true, inl, inr, List, [], ◌∷◌, ◌++◌, arith, Bytes, length,
  drop, Bool-cases,
}
use pmap.Go.Strings.{has_prefix, cut_at, split}
use pmap.Go.Strings.Laws.{cut_at-ne-nil, cut_at_found, cut_at_missed, drop_of_has_prefix}
use pmap.Go.Strings.Occurs.{Clear, cut_at_skip_all, split-two}

head-eq : {x y : Bytes} {l m : List Bytes} → x ∷ l ≡ y ∷ m → x ≡ y
head-eq h = cc

tail-eq : {x y : Bytes} {l m : List Bytes} → x ∷ l ≡ y ∷ m → l ≡ m
tail-eq h = cc

module _ (b : ℕ) (sep : Bytes) where
  one_part :
      (cur s : Bytes) {x : Bytes}
      → cut_at (b ∷ sep) zero cur s ≡ x ∷ []
      → (x ≡ cur ++ s) × Clear (b ∷ sep) s []
  one_part cur [] h = (unfold cut_at in sym (head-eq h) ∙ sym (append-nil cur), tt)
  one_part cur (c ∷ s) h = elim (Bool-cases (has_prefix (c ∷ s) (b ∷ sep))) [
    | inl found ↦ absurd (
        cut_at-ne-nil (b ∷ sep) (length (b ∷ sep) - 1) [] s
          (tail-eq (sym (cut_at_found _ cur s c found) ∙ h)))
    | inr missed ↦
        let (whole, clear) =
          one_part (cur ++ c ∷ []) s (sym (cut_at_missed _ cur s c missed) ∙ h) in
        (
          whole ∙ append_assoc cur (c ∷ []) s,
          (ap (λ t. has_prefix (c ∷ t) (b ∷ sep)) (append-nil s) ∙ missed, clear),
        )
  ]

  -- Behind a separator, the rest is cut.
  cut_behind :
      (c : ℕ) (s : Bytes)
      → has_prefix (c ∷ s) (b ∷ sep) ≡ true
      → (r : Bytes) × (c ∷ s ≡ b ∷ (sep ++ r))
        × (cut_at (b ∷ sep) (length (b ∷ sep) - 1) [] s ≡ cut_at (b ∷ sep) zero [] r)
  cut_behind c s found =
      let whole : b ∷ (sep ++ drop (length (b ∷ sep)) (c ∷ s)) ≡ c ∷ s =
        drop_of_has_prefix (c ∷ s) (b ∷ sep) found in
      let r = drop (length (b ∷ sep)) (c ∷ s) in
      let rest : s ≡ sep ++ r = cc in
      let short : length (b ∷ sep) - 1 ≡ length sep = omega arith in
      (
        r,
        sym whole,
        ap (λ n. cut_at (b ∷ sep) n [] s) short
            ∙ ap (cut_at (b ∷ sep) (length sep) []) rest
            ∙ cut_at_skip_all (b ∷ sep) [] sep r,
      )

  two_parts :
      (cur s : Bytes) {x y : Bytes}
      → cut_at (b ∷ sep) zero cur s ≡ x ∷ (y ∷ [])
      → (p : Bytes) × (s ≡ p ++ ((b ∷ sep) ++ y))
        × Clear (b ∷ sep) p ((b ∷ sep) ++ y)
        × Clear (b ∷ sep) y []
  two_parts cur [] h = unfold cut_at in absurd (cc)
  two_parts cur (c ∷ s) {x} {y} h = elim (Bool-cases (has_prefix (c ∷ s) (b ∷ sep))) [
    | inl found ↦
        let (r, whole, rest) = cut_behind c s found in
        let (same, clear) =
          one_part [] r (sym rest ∙ tail-eq (sym (cut_at_found _ cur s c found) ∙ h)) in
        ([], whole ∙ ap (λ t. b ∷ (sep ++ t)) (sym same), tt, rw same clear)
    | inr missed ↦
        let (p, whole, left, right) =
          two_parts (cur ++ c ∷ []) s (sym (cut_at_missed _ cur s c missed) ∙ h) in
        (
          c ∷ p,
          ap (λ t. c ∷ t) whole,
          (ap (λ t. has_prefix (c ∷ t) (b ∷ sep)) (sym whole) ∙ missed, left),
          right,
        )
  ]

  -- A text is split in two exactly if no separator follows the first one.
  pub split-two_iff :
      (s y : Bytes)
      → ((x : Bytes) × (split s (b ∷ sep) ≡ x ∷ (y ∷ []))) ↔ (
          (p : Bytes) × (s ≡ p ++ ((b ∷ sep) ++ y))
          × Clear (b ∷ sep) p ((b ∷ sep) ++ y)
          × Clear (b ∷ sep) y [])
  split-two_iff s y = (
    λ (x, h). unfold split in two_parts [] s h,
    λ (p, whole, left, right).
        (p, ap (λ t. split t (b ∷ sep)) whole ∙ split-two b sep p y left right),
  )
