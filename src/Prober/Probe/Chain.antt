-- ===== src/Prober/Probe/Chain.antt =====
-- The calls that `probeMapping` and `probePolicy` of prober/main.go have in common.
use pmap.Base.{◌≡◌, ◌↔◌, refl, ap, ◌∙◌, Option, none, some, Bytes, bytes_eq}
use pmap.Errors.{Err, ok}
use pmap.Errors.Fallible.{Fallible, value}
use pmap.Errors.Act.{
  Act, lift, call, or_wrap, ◌>>=◌, ◌>>◌, wrap_result, call_result, to_result, proceed-eq-ok,
  wrap_result-eq-ok, call_result-eq-ok, to_result-eq-ok,
}
use pmap.Prober.Config.{or_nil}

pub or_nil-ok : (e : Option Err) → or_nil e ≡ ok tt → e ≡ none
or_nil-ok none h = refl
or_nil-ok (some e) h = absurd (cc)

-- The chain that the two probes have in common.
abbrev pub chain :
    {W E P : Type 0}
    → (W → Fallible (Unit {0}) × W)
    → Act W Bytes
    → (Bytes → Fallible E)
    → (E → Fallible P)
    → (E → P → Option Err)
    → (t1 t2 t3 t4 : Bytes) → Act W (Unit {0})
chain upload entry decode payload diff t1 t2 t3 t4 = do
  or_wrap (call upload) t1
  text ← or_wrap entry t2
  event ← or_wrap (lift (decode text)) t3
  p ← or_wrap (lift (payload event)) t4
  λ w. (or_nil (diff event p), w)

-- Every call succeeds, and the result is wanted.
abbrev pub Passed :
    {W E P : Type 0}
    → (W → Fallible (Unit {0}) × W)
    → (Bytes → Fallible E)
    → (E → Fallible P)
    → (W → Bytes → W → Type 0)
    → (E → P → Type 0)
    → W
    → W
    → Type 0
Passed {W = W} {E = E} {P = P} upload decode payload Found Wanted w v =
    (u : W) × (upload w ≡ (value tt, u))
    × (text : Bytes) × Found u text v
    × (event : E) × (decode text ≡ value event)
    × (p : P) × (payload event ≡ value p)
    × Wanted event p

module _ {W E P : Type 0} (upload : W → Fallible (Unit {0}) × W) (entry : Act W Bytes)
    (decode : Bytes → Fallible E) (payload : E → Fallible P) (diff : E → P → Option Err)
    (Found : W → Bytes → W → Type 0) (Wanted : E → P → Type 0) (w v : W) where
  module _ (t1 t2 t3 t4 : Bytes) where
    chain-Passed :
        ((u : W) (text : Bytes) → entry u ≡ (ok text, v) → Found u text v)
        → ((event : E) (p : P) → diff event p ≡ none → Wanted event p)
        → chain upload entry decode payload diff t1 t2 t3 t4 w ≡ (ok tt, v)
        → Passed upload decode payload Found Wanted w v
    chain-Passed to_found to_wanted h =
        let (_, u, a, r1) = proceed-eq-ok _ (wrap_result t1 (call_result (upload w))) h in
        let (text, u2, b, r2) = proceed-eq-ok _ (wrap_result t2 (entry u)) r1 in
        let (event, u3, c, r3) =
          proceed-eq-ok _ (wrap_result t3 (to_result (decode text), u2)) r2 in
        let (p, u4, d, r4) = proceed-eq-ok _ (wrap_result t4 (to_result (payload event), u3)) r3 in
        let (decoded, s3) = to_result-eq-ok (decode text) (wrap_result-eq-ok t3 _ c) in
        let (unpacked, s4) = to_result-eq-ok (payload event) (wrap_result-eq-ok t4 _ d) in
        let found = wrap_result-eq-ok t2 (entry u) b in
        let up = call_result-eq-ok (upload w) (wrap_result-eq-ok t1 _ a) in
        let s5 : u4 ≡ v = ap (λ q. q.1) r4 in
        let clean : or_nil (diff event p) ≡ ok tt = ap (λ q. q.0) r4 in
        (
          u,
          up,
          text,
          to_found u text (rw (s3 ∙ s4 ∙ s5) at found),
          event,
          decoded,
          p,
          unpacked,
          to_wanted event p (or_nil-ok (diff event p) clean),
        )

    pub chain-ok_iff :
        ((u : W) (text : Bytes) → (entry u ≡ (ok text, v)) ↔ Found u text v)
        → ((event : E) (p : P) → (diff event p ≡ none) ↔ Wanted event p)
        → (chain upload entry decode payload diff t1 t2 t3 t4 w ≡ (ok tt, v))
          ↔ Passed upload decode payload Found Wanted w v
    chain-ok_iff found wanted = (
      chain-Passed (λ u text. (found u text).0) (λ event p. (wanted event p).0),
      λ (u, up, text, there, event, decoded, p, unpacked, good).
          let here = (found u text).1 there in
          let same = (wanted event p).1 good in rw (up, here, decoded, unpacked, same) refl,
    )
