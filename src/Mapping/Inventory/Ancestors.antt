-- ===== src/Mapping/Inventory/Ancestors.antt =====
-- Which resources are annotated with ancestors.
use pmap.Base.{
  ◌≡◌, ◌≢◌, refl, ◌∙◌, sym, false, none, Option, some, List, [], ◌∷◌, ◌++◌, Bytes, codes, arith,
  bytes_eq, nat_eq, ◌==◌, Bool-cases, inl, inr,
}
use pmap.Base.Dict.{Dict, lookup, insert, lookup-insert}
use pmap.Mapping.Inventory.{
  AnnoValue, text, texts, labels, time, policies, SearchResult, ancestors, put_texts, put_text,
  put_labels, put_time, put_policies, asset_inventory_annos,
}

module _ {Time Policy : Type 0} (j key : Bytes) (other : (j == key) ≡ false)
    (annos : Dict (AnnoValue Time Policy)) where
  lookup-insert_other : (x : AnnoValue Time Policy) → lookup j (insert key x annos) ≡ lookup j annos
  lookup-insert_other x = lookup-insert j key x annos ∙ rw other refl

  lookup-put_texts : (l : List Bytes) → lookup j (put_texts key l annos) ≡ lookup j annos
  unfolding put_texts
  lookup-put_texts [] = refl
  lookup-put_texts (v ∷ vs) = lookup-insert_other (texts (v ∷ vs))

  lookup-put_text : (v : Bytes) → lookup j (put_text key v annos) ≡ lookup j annos
  unfolding put_text
  lookup-put_text v = elim (Bool-cases (v == [])) [
    | inl empty ↦ rw empty refl
    | inr full ↦ rw full (lookup-insert_other (text v))
  ]

  lookup-put_labels : (l : Dict Bytes) → lookup j (put_labels key l annos) ≡ lookup j annos
  unfolding put_labels
  lookup-put_labels [] = refl
  lookup-put_labels (v ∷ vs) = lookup-insert_other (labels (v ∷ vs))

  lookup-put_time : (t : Option Time) → lookup j (put_time key t annos) ≡ lookup j annos
  unfolding put_time
  lookup-put_time none = refl
  lookup-put_time (some t) = lookup-insert_other (time t)

  lookup-put_policies : (l : List Policy) → lookup j (put_policies key l annos) ≡ lookup j annos
  unfolding put_policies
  lookup-put_policies [] = refl
  lookup-put_policies (v ∷ vs) = lookup-insert_other (policies (v ∷ vs))

append-ne-nil : (l : List Bytes) (v : Bytes) → l ++ v ∷ [] ≢ []
append-ne-nil [] v h = absurd (cc)
append-ne-nil (x ∷ l) v h = absurd (cc)

module _ {Time : Type 0} (r : SearchResult Time) where
  ancestors-ne-nil : r.project ≢ [] → ancestors r ≢ []
  unfolding ancestors
  ancestors-ne-nil h e = elim (Bool-cases (r.project == [])) [
    | inl empty ↦ h (ground arith)
    | inr full ↦ append-ne-nil _ r.project (rw full at e)
  ]

module _ {Time Policy : Type 0} where
  put_ancestors :
      (l : List Bytes)
      → l ≢ []
      → lookup
          (codes "ancestors")
          (put_texts {Time = Time} {Policy = Policy} (codes "ancestors") l [])
        ≢ none
  unfolding put_texts insert lookup bytes_eq nat_eq
  put_ancestors [] h e = absurd (h refl)
  put_ancestors (v ∷ vs) h e = absurd (cc)

  -- A resource in a project is annotated with its ancestors.
  pub lookup-asset_inventory_annos :
      (r : SearchResult Time) (iam : List Policy)
      → r.project ≢ []
      → lookup (codes "ancestors") (asset_inventory_annos r iam) ≢ none
  unfolding asset_inventory_annos bytes_eq nat_eq
  lookup-asset_inventory_annos r iam h e = put_ancestors (ancestors r) (ancestors-ne-nil r h) (
      sym (lookup-put_text (codes "ancestors") (codes "location") refl _ r.location)
      ∙ (sym (lookup-put_labels (codes "ancestors") (codes "labels") refl _ r.labels)
          ∙ (sym (lookup-put_time (codes "ancestors") (codes "createTime") refl _ r.create_time)
              ∙ (sym (lookup-put_texts (codes "ancestors") (codes "tagKeys") refl _ _)
                  ∙ (sym (lookup-put_texts (codes "ancestors") (codes "tagValues") refl _ _)
                      ∙ (sym (
                            lookup-put_policies (codes "ancestors") (codes "iamPolicies") refl _
                              iam)
                          ∙ e))))))
