-- ===== src/Server/Source/FilePath.antt =====
-- The file path of the source: what stands behind `/gh-prefix/` in the object's name.
use pmap.Base.{◌≡◌, ◌≢◌, ◌↔◌, sym, ap, some, List, [], ◌∷◌, ◌++◌, Bytes}
use pmap.Go.Strings.{split}
use pmap.Go.Strings.Occurs.{Clear}
use pmap.Go.Strings.TwoParts.{split-two_iff}
use pmap.Server.Source.{file_path, second_of_two, gcs_path_separator_key}

abbrev separator : Bytes
separator = gcs_path_separator_key

second_of_two_lem :
    (l : List Bytes) {q : Bytes} → q ≢ [] → second_of_two l ≡ q → (p : Bytes) × (l ≡ p ∷ (q ∷ []))
second_of_two_lem [] full h = absurd (full (sym h))
second_of_two_lem (p ∷ []) full h = absurd (full (sym h))
second_of_two_lem (p ∷ q ∷ []) full h = (p, ap (λ x. p ∷ (x ∷ [])) h)
second_of_two_lem (p ∷ q ∷ r ∷ l) full h = absurd (full (sym h))

-- A file path that is not empty is read from an object's name exactly if it is all that follows the
-- first separator in the name, and holds no separator itself.
pub file_path_iff :
    (object_id q : Bytes)
    → q ≢ []
    → (file_path (some object_id) ≡ q) ↔ (
        (p : Bytes) × (object_id ≡ p ++ (separator ++ q))
        × Clear separator p (separator ++ q)
        × Clear separator q [])
unfolding file_path
file_path_iff object_id q full =
    let (to, from) = split-two_iff _ _ object_id q in
    (
      λ h. to (second_of_two_lem (split object_id separator) full h),
      λ once. ap second_of_two (from once).1,
    )
