-- ===== src/Mapping/Inventory/Search.antt =====
-- What a search gives.
use mathlib.Core.List.{append-nil, append_assoc}
use pmap.Base.{◌≡◌, ◌↔◌, refl, sym, ◌∙◌, ap, List, [], ◌∷◌, ◌++◌, Bytes}
use pmap.Errors.Fallible.{value, >>=-eq-value}
use pmap.Mapping.Inventory.{
  Stream, done, broken, next, SearchResult, ResourcesRequest, PoliciesRequest, AssetClient,
  read_all, single, get_single_resource, get_iam_policies,
}

module _ {A : Type 0} where
  -- The iterator that gives the items of a list and is done.
  abbrev pub stream_of : List A → Stream A
  stream_of [] = done
  stream_of (a ∷ l) = next a (stream_of l)

  read_all-value :
      (failure : Bytes) (s : Stream A) (found : List A) {l : List A}
      → read_all failure s found ≡ value l
      → (more : List A) × (s ≡ stream_of more) × (l ≡ found ++ more)
  unfolding read_all
  read_all-value failure done found h = ([], refl, rw append-nil (cc))
  read_all-value failure (broken e) found h = absurd (cc)
  read_all-value failure (next a rest) found h =
      let (more, same, all) = read_all-value failure rest (found ++ a ∷ []) h in
      (a ∷ more, ap (next a) same, all ∙ append_assoc found (a ∷ []) more)

  read_all-stream_of :
      (failure : Bytes) (l found : List A)
      → read_all failure (stream_of l) found ≡ value (found ++ l)
  unfolding read_all
  read_all-stream_of failure [] found = rw append-nil
  read_all-stream_of failure (a ∷ l) found =
      read_all-stream_of failure l (found ++ a ∷ []) ∙ rw append_assoc

  single-value : (l : List A) {a : A} → single l ≡ value a → l ≡ a ∷ []
  unfolding single
  single-value [] h = absurd (cc)
  single-value (b ∷ []) h = cc
  single-value (b ∷ c ∷ l) h = absurd (cc)

module _ {Time Policy : Type 0} (client : AssetClient Time Policy) where
  -- A resource is returned exactly if it is the only one that the search gives, and the search ends
  -- without an error.
  pub get_single_resource-value_iff :
      (req : ResourcesRequest) (r : SearchResult Time)
      → (get_single_resource client req ≡ value r) ↔ (client.search_all_resources req ≡ next r done)
  unfolding get_single_resource
  get_single_resource-value_iff req r = (
    λ h.
        let (l, read, one) =
          >>=-eq-value (read_all _ (client.search_all_resources req) []) single h in
        let (more, same, all) = read_all-value _ _ [] read in
        same ∙ ap stream_of (sym all ∙ single-value l one),
    λ e. rw e refl,
  )

  -- A list of policies is returned exactly if the search gives just these, in this order, and ends
  -- without an error.
  pub get_iam_policies-value_iff :
      (req : PoliciesRequest) (l : List Policy)
      → (get_iam_policies client req ≡ value l) ↔ (client.search_all_iam_policies req ≡ stream_of l)
  unfolding get_iam_policies
  get_iam_policies-value_iff req l = (
    λ h. let (more, same, all) = read_all-value _ _ [] h in same ∙ ap stream_of (sym all),
    λ e. rw e (read_all-stream_of _ l []),
  )
