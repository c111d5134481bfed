-- ===== src/Server/PubSub/Runes.antt =====
-- Which cuts of an attribute's value by pkg/server/pubsub.go leave a text in UTF-8.
use mathlib.Core.Path.{subst}
use mathlib.Core.List.{append_assoc, append-nil}
use pmap.Base.{
  ℕ, zero, suc, ◌+◌, ◌-◌, ◌≤◌, ◌<◌, ◌≡◌, ◌↔◌, refl, sym, ◌∙◌, ap, some, [], ◌∷◌, ◌++◌, Bytes, arith,
  length, length-append, length-take, take, drop, take-append-drop, ltb, if◌then◌else◌,
}
use native.Mathlib.Decide.{dec_lt}
use pmap.Base.Dict.{Dict, lookup}
use pmap.Errors.Fallible.{value}
use pmap.Server.PubSub.{Message, cut_values, limited_size_message, max_topic_attr_value_bytes}
use pmap.Server.PubSub.Limits.{cut_value, lookup-cut_values}

abbrev Continues : ℕ → Type 0
Continues b = (0x80 ≤ b) × (b ≤ 0xBF)

-- The encoding of one code point, by the table of RFC 3629.
pub data IsRune : Bytes → Type 0 where
  one : {c : ℕ} → c < 0x80 → IsRune (c ∷ [])
  two : {c d : ℕ} → 0xC2 ≤ c → c ≤ 0xDF → Continues d → IsRune (c ∷ (d ∷ []))
  three :
      {c d e : ℕ}
      → 0xE0 ≤ c
      → c ≤ 0xEF
      → Continues d
      → Continues e
      → (c ≡ 0xE0 → 0xA0 ≤ d)
      → (c ≡ 0xED → d ≤ 0x9F)
      → IsRune (c ∷ (d ∷ (e ∷ [])))
  four :
      {c d e f : ℕ}
      → 0xF0 ≤ c
      → c ≤ 0xF4
      → Continues d
      → Continues e
      → Continues f
      → (c ≡ 0xF0 → 0x90 ≤ d)
      → (c ≡ 0xF4 → d ≤ 0x8F)
      → IsRune (c ∷ (d ∷ (e ∷ (f ∷ []))))

-- A text in UTF-8.
pub data IsUtf8 : Bytes → Type 0 where
  empty : IsUtf8 []
  rune : {r s : Bytes} (t : Bytes) → IsRune r → IsUtf8 s → t ≡ r ++ s → IsUtf8 t

-- How many bytes a rune has, by its first byte.
abbrev width : Bytes → ℕ
width [] = 0
width (c ∷ s) = if ltb c 0x80 then 1 else if ltb c 0xE0 then 2 else if ltb c 0xF0 then 3 else 4

IsRune-width : {r : Bytes} (s : Bytes) → IsRune r → (width (r ++ s) ≡ length r) × (0 < length r)
IsRune-width s (one small) = ground arith
IsRune-width s (two low high d) = ground arith
IsRune-width s (three low high d e _ _) = ground arith
IsRune-width s (four low high d e f _ _) = ground arith

-- Of two ways to begin a text with a rune, both are the same.
same_rest : (a b s t : Bytes) → length a ≡ length b → a ++ s ≡ b ++ t → s ≡ t
same_rest [] [] s t same e = e
same_rest [] (y ∷ b) s t same e = absurd (omega arith)
same_rest (x ∷ a) [] s t same e = absurd (omega arith)
same_rest (x ∷ a) (y ∷ b) s t same e = same_rest a b s t (omega arith) (cc)

rest-IsUtf8 : {r : Bytes} {t : Bytes} (s : Bytes) → IsRune r → IsUtf8 t → t ≡ r ++ s → IsUtf8 s
rest-IsUtf8 {r} s first empty e =
    absurd (omega (arith, ap length e, length-append r s, (IsRune-width s first).1))
rest-IsUtf8 {r} s first (rune {r = r'} {s = s'} t other text same) e =
    let both : r' ++ s' ≡ r ++ s = sym same ∙ e in
    let wide : length r' ≡ length r =
      sym (IsRune-width s' other).0 ∙ ap width both ∙ (IsRune-width s first).0 in
    subst IsUtf8 (same_rest r' r s' s wide both) text

behind-IsUtf8 : {p : Bytes} (x : Bytes) → IsUtf8 p → IsUtf8 (p ++ x) → IsUtf8 x
behind-IsUtf8 x empty text = text
behind-IsUtf8 x (rune {r} {s} t first rest same) text =
    let whole : t ++ x ≡ r ++ (s ++ x) = ap (λ l. l ++ x) same ∙ append_assoc r s x in
    behind-IsUtf8 x rest (rest-IsUtf8 (s ++ x) first text whole)

-- A part of a rune is no text.
part-not-IsUtf8 :
    (j : ℕ) {r : Bytes} {t : Bytes} → IsRune r → 0 < j → j < length r → t ≡ take j r → IsUtf8 t → ⊥
part-not-IsUtf8 j {r} first some_bytes not_all e empty =
    absurd (omega (arith, ap length e, length-take j r))
part-not-IsUtf8 j {r} first some_bytes not_all e (rune {r = r'} {s = s'} t other rest same) =
    let whole : r ≡ r' ++ (s' ++ drop j r) =
      sym (take-append-drop j r)
      ∙ ap (λ l. l ++ drop j r) (sym e ∙ same)
      ∙ append_assoc r' s' (drop j r) in
    let wide : length r ≡ length r' =
      sym (IsRune-width [] first).0
      ∙ ap width (append-nil r ∙ whole)
      ∙ (IsRune-width (s' ++ drop j r) other).0 in
    omega (arith, ap length (sym e ∙ same), length-append r' s', length-take j r)

take-append : (p y : Bytes) (n : ℕ) → length p ≤ n → take n (p ++ y) ≡ p ++ take (n - length p) y
unfolding take
take-append [] y n h = ap (λ k. take k y) (omega arith)
take-append (x ∷ p) y zero h = absurd (omega arith)
take-append (x ∷ p) y (suc n) h =
    ap (◌∷◌ x) (take-append p y n (omega arith) ∙ ap (λ k. p ++ take k y) (omega arith))

take-zero : (l : Bytes) → take 0 l ≡ []
unfolding take
take-zero [] = refl
take-zero (x ∷ l) = refl

take_of_append : (j : ℕ) (r q : Bytes) → j ≤ length r → take j (r ++ q) ≡ take j r
unfolding take
take_of_append zero [] [] h = refl
take_of_append zero [] (x ∷ q) h = refl
take_of_append zero (x ∷ r) q h = refl
take_of_append (suc j) [] q h = absurd (omega arith)
take_of_append (suc j) (x ∷ r) q h = ap (◌∷◌ x) (take_of_append j r q (omega arith))

append-IsUtf8 : {p q : Bytes} → IsUtf8 p → IsUtf8 q → IsUtf8 (p ++ q)
append-IsUtf8 empty text = text
append-IsUtf8 {q = q} (rune {r} {s} t first rest same) text =
    rune (t ++ q) first (append-IsUtf8 rest text) (ap (λ l. l ++ q) same ∙ append_assoc r s q)

module _ {p r : Bytes} (q : Bytes) (n : ℕ) (before : IsUtf8 p) (across : IsRune r)
    (from : length p ≤ n) (to : n < length p + length r) where
  cut_in_rune : take n (p ++ (r ++ q)) ≡ p ++ take (n - length p) r
  cut_in_rune =
      take-append p (r ++ q) n from
      ∙ ap (λ l. p ++ l) (take_of_append (n - length p) r q (omega arith))

  take-IsUtf8_iff : IsUtf8 (take n (p ++ (r ++ q))) ↔ (length p ≡ n)
  take-IsUtf8_iff = (
    λ text. elim (dec_lt (length p) n) [
      | yes inside ↦ absurd (
          part-not-IsUtf8 (n - length p) across (omega arith) (omega arith) refl
            (behind-IsUtf8 (take (n - length p) r) before (subst IsUtf8 cut_in_rune text)))
      | no outside ↦ omega arith
    ],
    λ at_end.
        let none_left : n - length p ≡ 0 = omega arith in
        let nothing : take (n - length p) r ≡ [] = ap (λ k. take k r) none_left ∙ take-zero r in
        subst IsUtf8 (sym (cut_in_rune ∙ ap (λ l. p ++ l) nothing ∙ append-nil p)) before,
  )

message-attributes :
    (content : Bytes) (attr : Dict Bytes) {m : Message}
    → limited_size_message content attr ≡ value m
    → m.attributes ≡ cut_values attr
unfolding limited_size_message
message-attributes content attr made = ground arith

-- An attribute whose value is a text `p` in UTF-8 of at most 1024 bytes, then a rune that ends behind
-- the 1024th byte, then anything: in the message that is made, the value is in UTF-8 exactly if `p` has
-- 1024 bytes. If it has fewer, the rune is cut in two.
pub limited_size_message-IsUtf8_iff :
    (content : Bytes) (attr : Dict Bytes) (k : Bytes) {m : Message} {p r : Bytes} (q : Bytes)
    → limited_size_message content attr ≡ value m
    → lookup k attr ≡ some (p ++ (r ++ q))
    → IsUtf8 p
    → IsRune r
    → length p ≤ max_topic_attr_value_bytes
    → max_topic_attr_value_bytes < length p + length r
    → (v : Bytes) × (lookup k m.attributes ≡ some v)
      × (IsUtf8 v ↔ (length p ≡ max_topic_attr_value_bytes))
limited_size_message-IsUtf8_iff content attr k q made held before across from to = (
  take max_topic_attr_value_bytes _,
  ap (lookup k) (message-attributes content attr made)
      ∙ lookup-cut_values k attr
      ∙ ap cut_value held,
  take-IsUtf8_iff q max_topic_attr_value_bytes before across from to,
)
