-- ===== src/Go/Strings/Cut.antt =====
-- The two sides of a `Cut`, and the first part of a `Split`.
use mathlib.Core.List.{append_assoc, append-nil}
use pmap.Base.{
  ℕ, zero, ◌≤◌, ap, length, length-append, true, ◌≡◌, ◌⊎◌, inl, refl, sym, false, [], ◌∷◌, ◌++◌,
  Bytes, arith, nat_eq,
}
use pmap.Go.Strings.{has_prefix, cut_at, split, first, cut_before, cut_after, contains}

first-cut_at : (b : ℕ) (cur s : Bytes) → first (cut_at (b ∷ []) zero cur s) ≡ cur ++ cut_before s b
unfolding cut_at has_prefix cut_before
first-cut_at b cur [] = sym (append-nil cur)
first-cut_at b cur (c ∷ s) = ground (
  arith,
  first-cut_at b (cur ++ c ∷ []) s,
  append_assoc cur (c ∷ []) (cut_before s b),
  append-nil cur,
)

-- The first part of a split at a byte is what stands before the byte.
pub first-split : (b : ℕ) (s : Bytes) → first (split s (b ∷ [])) ≡ cut_before s b
unfolding split
first-split b s = first-cut_at b [] s

pub cut_before_parts :
    (b : ℕ) (s : Bytes) → (s ≡ cut_before s b) ⊎ (s ≡ cut_before s b ++ (b ∷ cut_after s b))
unfolding cut_before cut_after
cut_before_parts b [] = inl refl
cut_before_parts b (c ∷ s) = ground (arith, cut_before_parts b s)

pub cut_before_whole : (b : ℕ) (k : Bytes) → contains k b ≡ false → cut_before k b ≡ k
unfolding cut_before contains
cut_before_whole b [] h = refl
cut_before_whole b (c ∷ k) h = ground (arith, cut_before_whole b k)

pub cut_before-append :
    (b : ℕ) (k rest : Bytes) → contains k b ≡ false → cut_before (k ++ (b ∷ rest)) b ≡ k
unfolding cut_before contains
cut_before-append b [] rest h = ground arith
cut_before-append b (c ∷ k) rest h = ground (arith, cut_before-append b k rest)

cut_at_of_absent :
    (b : ℕ) (cur s : Bytes) → contains s b ≡ false → cut_at (b ∷ []) zero cur s ≡ (cur ++ s) ∷ []
unfolding cut_at has_prefix contains
cut_at_of_absent b cur [] h = rw append-nil
cut_at_of_absent b cur (c ∷ s) h =
    ground (arith, cut_at_of_absent b (cur ++ c ∷ []) s, append_assoc cur (c ∷ []) s)

-- A text without the byte is not split.
pub split_of_absent : (b : ℕ) (s : Bytes) → contains s b ≡ false → split s (b ∷ []) ≡ s ∷ []
unfolding split
split_of_absent b s h = cut_at_of_absent b [] s h

pub cut-eq_of_contains :
    (b : ℕ) (s : Bytes) → contains s b ≡ true → s ≡ cut_before s b ++ (b ∷ cut_after s b)
unfolding cut_before cut_after contains
cut-eq_of_contains b [] h = absurd (cc)
cut-eq_of_contains b (c ∷ s) h = ground (arith, cut-eq_of_contains b s)

pub contains-append : (b : ℕ) (s t : Bytes) → contains (s ++ (b ∷ t)) b ≡ true
unfolding contains
contains-append b [] t = ground arith
contains-append b (c ∷ s) t = ground (arith, contains-append b s t)

-- Two texts cut at the same byte are equal only if both sides are, where neither side is longer.
pub sides-eq :
    (b : ℕ) (k v k' v' : Bytes)
    → length k ≤ length k'
    → length v ≤ length v'
    → k ++ (b ∷ v) ≡ k' ++ (b ∷ v')
    → (k ≡ k') × (v ≡ v')
sides-eq b [] v [] v' hk hv e = ground arith
sides-eq b [] v (y ∷ k') v' hk hv e = absurd (omega (arith, ap length e, length-append k' (b ∷ v')))
sides-eq b (x ∷ k) v [] v' hk hv e = absurd (omega arith)
sides-eq b (x ∷ k) v (y ∷ k') v' hk hv e = ground (arith, sides-eq b k v k' v')
