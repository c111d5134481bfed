-- ===== src/Go/Strings/Joined.antt =====
-- `Split` takes apart what `Join` put together.
use mathlib.Core.List.{append_assoc, append-nil}
use pmap.Base.{
  ℕ, zero, ◌≡◌, refl, ap, ◌∙◌, false, ◌||◌, List, [], ◌∷◌, ◌++◌, Bytes, arith, nat_eq, All,
}
use pmap.Go.Strings.{has_prefix, cut_at, split, join, contains}

cut_at-append :
    (b : ℕ) (cur p q : Bytes)
    → contains p b ≡ false
    → cut_at (b ∷ []) zero cur (p ++ (b ∷ q)) ≡ (cur ++ p) ∷ cut_at (b ∷ []) zero [] q
unfolding cut_at has_prefix contains
cut_at-append b cur [] q h = ground (arith, append-nil cur)
cut_at-append b cur (c ∷ p) q h =
    ground (arith, cut_at-append b (cur ++ c ∷ []) p q, append_assoc cur (c ∷ []) p)

cut_at_of_absent' :
    (b : ℕ) (cur s : Bytes) → contains s b ≡ false → cut_at (b ∷ []) zero cur s ≡ (cur ++ s) ∷ []
unfolding cut_at has_prefix contains
cut_at_of_absent' b cur [] h = rw append-nil
cut_at_of_absent' b cur (c ∷ s) h =
    ground (arith, cut_at_of_absent' b (cur ++ c ∷ []) s, append_assoc cur (c ∷ []) s)

-- Parts without the byte, joined by it, are split into the same parts.
pub split-join :
    (b : ℕ) (p : Bytes) (ps : List Bytes)
    → All (λ q. contains q b ≡ false) (p ∷ ps)
    → split (join (p ∷ ps) (b ∷ [])) (b ∷ []) ≡ p ∷ ps
unfolding split join
split-join b p [] (absent, _) = cut_at_of_absent' b [] p absent
split-join b p (q ∷ ps) (absent, rest) =
    cut_at-append b [] p (join (q ∷ ps) (b ∷ [])) absent ∙ ap (λ l. p ∷ l) (split-join b q ps rest)

pub contains-++ : (b : ℕ) (s t : Bytes) → contains (s ++ t) b ≡ (contains s b || contains t b)
unfolding contains
contains-++ b [] t = refl
contains-++ b (c ∷ s) t = ground (arith, contains-++ b s t)
