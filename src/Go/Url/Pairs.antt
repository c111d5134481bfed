-- ===== src/Go/Url/Pairs.antt =====
-- Queries of pairs that need no escapes: `ParseQuery` collects the pairs in their order.
use pmap.Base.{
  ◌≡◌, ◌≢◌, refl, ap, ◌∙◌, true, false, Option, none, List, [], ◌∷◌, ◌++◌, Bytes, codes, arith,
  bytes_eq, nat_eq, All,
}
use pmap.Errors.{Err}
use pmap.Go.Strings.{split, join, contains, cut_before, cut_after}
use pmap.Go.Strings.Cut.{cut_before-append}
use pmap.Go.Strings.Joined.{split-join, contains-++}
use pmap.Go.Url.{Values, add, add_unescaped, add_piece, add_pieces, parse_query}
use pmap.Go.Url.Plain.{is_plain, unescape_of_plain}

abbrev pub Pair : Type 0
Pair = Bytes × Bytes

-- `k=v`
abbrev pub render : Pair → Bytes
render (k, v) = k ++ (b'=' ∷ v)

abbrev pub renders : List Pair → List Bytes
renders [] = []
renders (p ∷ l) = render p ∷ renders l

-- No separator, escape or plus sign.
abbrev pub Clean : Bytes → Type 0
Clean s = (contains s b'&' ≡ false) × (contains s b';' ≡ false) × (is_plain s ≡ true)

abbrev pub CleanPair : Pair → Type 0
CleanPair (k, v) = Clean k × (contains k b'=' ≡ false) × Clean v

-- `m[key] = append(m[key], value)` for each pair
abbrev pub collect : List Pair → Values → Values
collect [] m = m
collect ((k, v) ∷ l) m = collect l (add k v m)

pub cut_after-append :
    (k rest : Bytes) → contains k b'=' ≡ false → cut_after (k ++ (b'=' ∷ rest)) b'=' ≡ rest
unfolding cut_after contains
cut_after-append [] rest h = ground arith
cut_after-append (c ∷ k) rest h = ground (arith, cut_after-append k rest)

pub render-ne-nil : (p : Pair) → render p ≢ []
render-ne-nil ([], v) h = absurd (cc)
render-ne-nil (c ∷ k, v) h = absurd (cc)

render-semicolon : (p : Pair) → CleanPair p → contains (render p) b';' ≡ false
unfolding contains
render-semicolon (k, v) ((_, k_free, _), _, (_, v_free, _)) =
    contains-++ b';' k (b'=' ∷ v) ∙ ground (arith)

pub render-ampersand : (p : Pair) → CleanPair p → contains (render p) b'&' ≡ false
unfolding contains
render-ampersand (k, v) ((k_free, _, _), _, (v_free, _, _)) =
    contains-++ b'&' k (b'=' ∷ v) ∙ ground (arith)

renders-ampersand :
    (l : List Pair) → All CleanPair l → All (λ q. contains q b'&' ≡ false) (renders l)
renders-ampersand [] h = tt
renders-ampersand (p ∷ l) (h, hs) = (render-ampersand p h, renders-ampersand l hs)

-- Clean pairs that are joined are split into the same pairs.
pub split-renders :
    (p : Pair) (l : List Pair)
    → All CleanPair (p ∷ l)
    → split (join (renders (p ∷ l)) (codes "&")) (codes "&") ≡ renders (p ∷ l)
split-renders p l h = split-join b'&' (render p) (renders l) (renders-ampersand (p ∷ l) h)

pub render-inj : (p q : Pair) → CleanPair p → CleanPair q → render p ≡ render q → p ≡ q
render-inj (k, v) (j, w) (_, k_free, _) (_, j_free, _) h =
    let left = ap (λ s. cut_before s b'=') h in
    let right = ap (λ s. cut_after s b'=') h in
    let a = cut_before-append b'=' k v k_free in
    let b = cut_before-append b'=' j w j_free in
    let c = cut_after-append k v k_free in let d = cut_after-append j w j_free in cc

module _ (quote : Bytes → Bytes) where
  add_piece-render :
      (p : Pair) (m : Values) (e : Option Err)
      → CleanPair p
      → add_piece quote (render p) (m, e) ≡ (add p.0 p.1 m, e)
  unfolding add_piece add_unescaped
  add_piece-render (k, v) m e (ck, k_free, cv) =
      let semi = render-semicolon (k, v) (ck, k_free, cv) in
      let full = render-ne-nil (k, v) in
      let a = cut_before-append b'=' k v k_free in
      let c = cut_after-append k v k_free in
      let uk = unescape_of_plain k ck.2 in
      let uv = unescape_of_plain v cv.2 in rw (semi, a, c, uk, uv) (ground arith)

  add_pieces-renders :
      (l : List Pair) (m : Values)
      → All CleanPair l
      → add_pieces quote (renders l) (m, none) ≡ (collect l m, none)
  unfolding add_pieces
  add_pieces-renders [] m h = refl
  add_pieces-renders ((k, v) ∷ l) m (h, hs) =
      ap (add_pieces quote (renders l)) (add_piece-render (k, v) m none h)
      ∙ add_pieces-renders l (add k v m) hs

  -- The values of joined clean pairs are the collected ones.
  pub parse_query-renders :
      (p : Pair) (l : List Pair)
      → All CleanPair (p ∷ l)
      → parse_query quote (join (renders (p ∷ l)) (codes "&")) ≡ (collect (p ∷ l) [], none)
  unfolding parse_query
  parse_query-renders p l h = rw (split-renders p l h) (add_pieces-renders (p ∷ l) [] h)
