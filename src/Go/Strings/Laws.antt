-- ===== src/Go/Strings/Laws.antt =====
-- What `Split` cuts, `Join` puts together again.
use mathlib.Core.List.{append_assoc, append-nil, cons-ne-nil}
use pmap.Base.{
  ℕ, zero, suc, ◌-◌, ◌≡◌, ◌≢◌, refl, sym, ap, ◌∙◌, true, false, inl, inr, List, [], ◌∷◌, ◌++◌,
  arith, Bytes, length, drop, Bool-cases,
}
use pmap.Go.Strings.{has_prefix, cut_at, split, join}

pub has_prefix-append : (s t : Bytes) → has_prefix (s ++ t) s ≡ true
unfolding has_prefix
has_prefix-append [] [] = refl
has_prefix-append [] (c ∷ t) = refl
has_prefix-append (c ∷ s) t = let h = has_prefix-append s t in ground arith

pub drop_of_has_prefix : (s sep : Bytes) → has_prefix s sep ≡ true → sep ++ drop (length sep) s ≡ s
unfolding has_prefix drop
drop_of_has_prefix [] [] h = refl
drop_of_has_prefix (c ∷ s) [] h = refl
drop_of_has_prefix [] (p ∷ ps) h = absurd (cc)
drop_of_has_prefix (c ∷ s) (p ∷ ps) h = ground (arith, drop_of_has_prefix s ps)

pub drop-append : (s t : Bytes) → drop (length s) (s ++ t) ≡ t
unfolding drop
drop-append [] [] = refl
drop-append [] (c ∷ t) = refl
drop-append (c ∷ s) t = drop-append s t

drop-zero : (s : Bytes) → drop zero s ≡ s
unfolding drop
drop-zero [] = refl
drop-zero (c ∷ s) = refl

pub cut_at-ne-nil : (sep : Bytes) (skip : ℕ) (cur s : Bytes) → cut_at sep skip cur s ≢ []
unfolding cut_at
cut_at-ne-nil sep skip cur [] = cons-ne-nil cur []
cut_at-ne-nil sep (suc skip) cur (c ∷ s) = cut_at-ne-nil sep skip cur s
cut_at-ne-nil sep zero cur (c ∷ s) = grind (arith, cut_at-ne-nil sep zero (cur ++ c ∷ []) s)

pub join-cons :
    (p : Bytes) (ps : List Bytes) (sep : Bytes)
    → ps ≢ []
    → join (p ∷ ps) sep ≡ p ++ (sep ++ join ps sep)
unfolding join
join-cons p [] sep h = absurd (h refl)
join-cons p (q ∷ ps) sep h = refl

module _ (sep cur s : Bytes) (c : ℕ) where
  pub cut_at_found :
      has_prefix (c ∷ s) sep ≡ true
      → cut_at sep zero cur (c ∷ s) ≡ cur ∷ cut_at sep (length sep - 1) [] s
  unfolding cut_at
  cut_at_found h = rw (h, cut_at)

  pub cut_at_missed :
      has_prefix (c ∷ s) sep ≡ false
      → cut_at sep zero cur (c ∷ s) ≡ cut_at sep zero (cur ++ c ∷ []) s
  unfolding cut_at
  cut_at_missed h = rw (h, cut_at)

  pub cut_at_skip : (skip : ℕ) → cut_at sep (suc skip) cur (c ∷ s) ≡ cut_at sep skip cur s
  unfolding cut_at
  cut_at_skip skip = refl

module _ (b : ℕ) (sep : Bytes) where
  pred_len : length (b ∷ sep) - 1 ≡ length sep
  pred_len = omega arith

  join-cut_at :
      (skip : ℕ) (cur s : Bytes) → join (cut_at (b ∷ sep) skip cur s) (b ∷ sep) ≡ cur ++ drop skip s
  unfolding drop
  join-cut_at zero cur [] = unfold cut_at join in sym (append-nil cur)
  join-cut_at (suc skip) cur [] = unfold cut_at join in sym (append-nil cur)
  join-cut_at (suc skip) cur (c ∷ s) = rw (cut_at_skip _ cur s c skip) (join-cut_at skip cur s)
  join-cut_at zero cur (c ∷ s) =
      let at_sep = join-cut_at (length (b ∷ sep) - 1) [] s in
      let past = join-cut_at zero (cur ++ c ∷ []) s in
      elim (Bool-cases (has_prefix (c ∷ s) (b ∷ sep))) [
        | inl found ↦
            rw
              (
                cut_at_found _ cur s c found,
                join-cons cur _ (b ∷ sep) (cut_at-ne-nil (b ∷ sep) (length (b ∷ sep) - 1) [] s),
                at_sep,
                pred_len,
              )
              (rw (drop-zero) (ap (λ t. cur ++ t) (drop_of_has_prefix (c ∷ s) (b ∷ sep) found)))
        | inr missed ↦
            rw (cut_at_missed _ cur s c missed, past) (rw (drop-zero, drop-zero, append_assoc))
      ]

  -- Joining the parts of a split gives the text back, for every text.
  pub join-split : (s : Bytes) → join (split s (b ∷ sep)) (b ∷ sep) ≡ s
  unfolding split
  join-split s = join-cut_at zero [] s ∙ drop-zero s
