-- ===== src/Mapping/Scope/Laws.antt =====
-- Which names have a scope, and which scope it is.
use pmap.Base.{
  ◌≡◌, ◌≢◌, ◌↔◌, ◌⊎◌, inl, inr, refl, ◌∙◌, true, false, List, [], ◌∷◌, ◌++◌, Bytes, codes, arith,
  All, Bool-cases, bytes_eq,
}
use pmap.Errors.{Err}
use pmap.Errors.Fallible.{value, failed}
use pmap.Go.Strings.{split, first}
use pmap.Mapping.Scope.{is_scope_word, is_dangling, invalid_name, scope_text, scan, parse_scope}

abbrev pub NoWord : List Bytes → Type 0
NoWord = All (λ e. is_scope_word e ≡ false)

-- A scope word that no segment, or an empty one, follows.
pub data Dangling : List Bytes → Type 0 where
  at_end : {w : Bytes} → is_scope_word w ≡ true → Dangling (w ∷ [])
  at_empty :
      {w e : Bytes} {rest : List Bytes}
      → is_scope_word w ≡ true
      → e ≡ []
      → Dangling (w ∷ (e ∷ rest))
  later : {e : Bytes} {rest : List Bytes} → Dangling rest → Dangling (e ∷ rest)

-- The last scope word, and the segment behind it.
pub data LastScope : List Bytes → Bytes → Bytes → Type 0 where
  found :
      {w id : Bytes} {rest : List Bytes}
      → is_scope_word w ≡ true
      → NoWord (id ∷ rest)
      → LastScope (w ∷ (id ∷ rest)) w id
  later : {e w id : Bytes} {rest : List Bytes} → LastScope rest w id → LastScope (e ∷ rest) w id

module _ (name : Bytes) where
  scan_hit :
      (e : Bytes) (rest : List Bytes) (p s : Bytes)
      → is_scope_word e ≡ true
      → is_dangling rest ≡ false
      → scan name (e ∷ rest) p s ≡ scan name rest e (first rest)
  unfolding scan
  scan_hit e rest p s word whole = rw (word, whole)

  scan_dangling :
      (e : Bytes) (rest : List Bytes) (p s : Bytes)
      → is_scope_word e ≡ true
      → is_dangling rest ≡ true
      → scan name (e ∷ rest) p s ≡ failed (invalid_name name)
  unfolding scan
  scan_dangling e rest p s word whole = rw (word, whole)

  scan_miss :
      (e : Bytes) (rest : List Bytes) (p s : Bytes)
      → is_scope_word e ≡ false
      → scan name (e ∷ rest) p s ≡ scan name rest p s
  unfolding scan
  scan_miss e rest p s other = rw other

  Dangling-head :
      (e : Bytes) (rest : List Bytes)
      → is_scope_word e ≡ true
      → is_dangling rest ≡ true
      → Dangling (e ∷ rest)
  unfolding is_dangling
  Dangling-head e [] word h = at_end word
  Dangling-head e (r ∷ rest) word h = at_empty word (ground arith)

  scan_failed : (l : List Bytes) (p s : Bytes) {x : Err} → scan name l p s ≡ failed x → Dangling l
  scan_failed [] p s h = absurd (unfold scan in cc)
  scan_failed (e ∷ rest) p s {x} h = elim (Bool-cases (is_scope_word e)) [
    | inl word ↦ elim (Bool-cases (is_dangling rest)) [
      | inl bad ↦ Dangling-head e rest word bad
      | inr whole ↦
          later (scan_failed rest e (first rest) (rw (scan_hit e rest p s word whole) at h))
    ]
    | inr other ↦ later (scan_failed rest p s (rw (scan_miss e rest p s other) at h))
  ]

  scan-Dangling :
      {l : List Bytes} → Dangling l → (p s : Bytes) → scan name l p s ≡ failed (invalid_name name)
  unfolding is_dangling
  scan-Dangling (at_end word) p s = scan_dangling _ [] p s word refl
  scan-Dangling (at_empty {rest} word empty) p s =
      scan_dangling _ _ p s word (rw empty (ground arith))
  scan-Dangling (later {e} {rest} d) p s =
      let ih = scan-Dangling d in
      elim (Bool-cases (is_scope_word e)) [
        | inl word ↦ elim (Bool-cases (is_dangling rest)) [
          | inl bad ↦ scan_dangling e rest p s word bad
          | inr whole ↦ scan_hit e rest p s word whole ∙ ih e (first rest)
        ]
        | inr other ↦ scan_miss e rest p s other ∙ ih p s
      ]

  -- What the loop ends with: the scope that it was given, or the last one in the list.
  abbrev Ends : List Bytes → Bytes → Bytes → Bytes → Type 0
  Ends l p s r =
      (NoWord l × (r ≡ scope_text p s))
      ⊎ ((w : Bytes) × (id : Bytes) × LastScope l w id × (id ≢ []) × (r ≡ scope_text w id))

  Ends-hit :
      (e : Bytes) (rest : List Bytes) (p s r : Bytes)
      → is_scope_word e ≡ true
      → is_dangling rest ≡ false
      → Ends rest e (first rest) r
      → Ends (e ∷ rest) p s r
  unfolding is_dangling
  Ends-hit e [] p s r word whole h = absurd (cc)
  Ends-hit e (q ∷ rest) p s r word whole (inl (none_left, same)) =
      inr (e, q, found word none_left, (λ empty. ground arith), same)
  Ends-hit e (q ∷ rest) p s r word whole (inr (w, id, last, full, same)) =
      inr (w, id, LastScope.later last, full, same)

  Ends-miss :
      (e : Bytes) (rest : List Bytes) (p s r : Bytes)
      → is_scope_word e ≡ false
      → Ends rest p s r
      → Ends (e ∷ rest) p s r
  Ends-miss e rest p s r other (inl (none_left, same)) = inl ((other, none_left), same)
  Ends-miss e rest p s r other (inr (w, id, last, full, same)) =
      inr (w, id, LastScope.later last, full, same)

  scan-value : (l : List Bytes) (p s r : Bytes) → scan name l p s ≡ value r → Ends l p s r
  scan-value [] p s r h = inl (tt, unfold scan in cc)
  scan-value (e ∷ rest) p s r h = elim (Bool-cases (is_scope_word e)) [
    | inl word ↦ elim (Bool-cases (is_dangling rest)) [
      | inl bad ↦ absurd (let d = scan_dangling e rest p s word bad in cc)
      | inr whole ↦
          Ends-hit e rest p s r word whole
            (scan-value rest e (first rest) r (rw (scan_hit e rest p s word whole) at h))
    ]
    | inr other ↦
        Ends-miss e rest p s r other (scan-value rest p s r (rw (scan_miss e rest p s other) at h))
  ]

  -- A name is invalid exactly if one of its segments is a scope word with no segment, or an empty
  -- one, behind it.
  pub parse_scope-failed_iff :
      (parse_scope name ≡ failed (invalid_name name)) ↔ Dangling (split name (codes "/"))
  unfolding parse_scope
  parse_scope-failed_iff = (scan_failed _ [] [], λ d. scan-Dangling d [] [])

  -- A name that is read has no scope word among its segments and gives "", or it gives the last
  -- scope word, a slash, and the segment behind it, which is not empty.
  pub parse_scope-value :
      (r : Bytes)
      → parse_scope name ≡ value r
      → (NoWord (split name (codes "/")) × (r ≡ []))
        ⊎ ((w : Bytes) × (id : Bytes) × LastScope (split name (codes "/")) w id
            × (id ≢ [])
            × (r ≡ w ++ (codes "/" ++ id)))
  unfolding parse_scope
  parse_scope-value r h = render (scan-value _ [] [] r h)
    where
      render :
          {l : List Bytes}
          → Ends l [] [] r
          → (NoWord l × (r ≡ []))
            ⊎ ((w : Bytes) × (id : Bytes) × LastScope l w id
                × (id ≢ [])
                × (r ≡ w ++ (codes "/" ++ id)))
      render (inl (none_left, same)) = inl (none_left, same ∙ unfold scope_text in ground arith)
      render (inr (w, id, last, full, same)) =
          inr (w, id, last, full, same ∙ unfold scope_text in ground arith)
