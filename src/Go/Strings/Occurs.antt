-- ===== src/Go/Strings/Occurs.antt =====
-- `Split` of a text in which the separator stands once.
use mathlib.Core.List.{append_assoc, append-nil}
use pmap.Base.{ℕ, zero, ◌-◌, ◌≡◌, refl, ◌∙◌, sym, ap, false, [], ◌∷◌, ◌++◌, arith, Bytes, length}
use pmap.Go.Strings.{has_prefix, cut_at, split}
use pmap.Go.Strings.Laws.{has_prefix-append, cut_at_found, cut_at_missed, cut_at_skip}

-- The separator starts at no byte of `p`, where `rest` follows.
abbrev pub Clear : Bytes → Bytes → Bytes → Type 0
Clear sep [] rest = Unit
Clear sep (c ∷ p) rest = (has_prefix (c ∷ (p ++ rest)) sep ≡ false) × Clear sep p rest

cut_at-Clear :
    (sep cur p rest : Bytes)
    → Clear sep p rest
    → cut_at sep zero cur (p ++ rest) ≡ cut_at sep zero (cur ++ p) rest
cut_at-Clear sep cur [] rest h = rw append-nil
cut_at-Clear sep cur (c ∷ p) rest (missed, h) =
    cut_at_missed sep cur (p ++ rest) c missed
    ∙ cut_at-Clear sep (cur ++ c ∷ []) p rest h
    ∙ rw append_assoc

pub cut_at_skip_all :
    (sep cur x s : Bytes) → cut_at sep (length x) cur (x ++ s) ≡ cut_at sep zero cur s
cut_at_skip_all sep cur [] s = refl
cut_at_skip_all sep cur (c ∷ x) s =
    cut_at_skip sep cur (x ++ s) c (length x) ∙ cut_at_skip_all sep cur x s

cut_at_end : (sep cur : Bytes) → cut_at sep zero cur [] ≡ cur ∷ []
unfolding cut_at
cut_at_end sep cur = refl

module _ (b : ℕ) (sep : Bytes) where
  cut_at_sep :
      (cur q : Bytes)
      → cut_at (b ∷ sep) zero cur ((b ∷ sep) ++ q) ≡ cur ∷ cut_at (b ∷ sep) zero [] q
  cut_at_sep cur q =
      cut_at_found (b ∷ sep) cur (sep ++ q) b (has_prefix-append (b ∷ sep) q)
      ∙ ap (λ n. cur ∷ cut_at (b ∷ sep) n [] (sep ++ q)) pred_length
      ∙ ap (λ l. cur ∷ l) (cut_at_skip_all (b ∷ sep) [] sep q)
    where
      pred_length : length (b ∷ sep) - 1 ≡ length sep
      pred_length = omega arith

  -- A text with one separator is split in two.
  pub split-two :
      (p q : Bytes)
      → Clear (b ∷ sep) p ((b ∷ sep) ++ q)
      → Clear (b ∷ sep) q []
      → split (p ++ ((b ∷ sep) ++ q)) (b ∷ sep) ≡ p ∷ q ∷ []
  unfolding split
  split-two p q left right =
      cut_at-Clear (b ∷ sep) [] p ((b ∷ sep) ++ q) left
      ∙ cut_at_sep p q
      ∙ ap (λ l. p ∷ l)
          (ap (cut_at (b ∷ sep) zero []) (sym (append-nil q))
            ∙ cut_at-Clear (b ∷ sep) [] q [] right
            ∙ cut_at_end (b ∷ sep) q)
