-- ===== src/Prober/Probe/Diffs.antt =====
-- When `probeMapping` and `probePolicy` of prober/main.go see no difference.
use pmap.Base.{
  ◌≡◌, ◌↔◌, refl, Bool, true, false, not, Option, none, some, [], ◌++◌, Bytes, arith, bytes_eq,
  ◌==◌,
}
use pmap.Errors.{Err, join}
use pmap.Server.Source.{GitHubSource}
use pmap.Server.Handler.{PmapEvent}
use pmap.Server.Config.{join_if}
use pmap.Api.Messages.{ResourceMapping, Structs}
use pmap.Prober.{want_github_source}
use pmap.Prober.Config.{
  Config, Values, want_resource_mapping, join_diff, mapping_differs, payload_differs, no_ancestors,
  source_differs,
}
use pmap.Prober.Probe.{has_ancestors, mapping_diff, want_payload, policy_diff}

-- What go-cmp documents of `Diff`: it is empty exactly if the two are equal, where the annotations
-- of a mapping are ignored.
pub record DiffLaws {S V Any Time : Type 0} (values : Values S V Any Time) : Type 0 where
  pub diff_mapping-nil_iff :
      (a b : ResourceMapping S)
      → (values.diff_mapping a b ≡ []) ↔ ((a.resource ≡ b.resource) × (a.contacts ≡ b.contacts))
  pub diff_struct-nil_iff : (a b : S) → (values.diff_struct a b ≡ []) ↔ (a ≡ b)
  pub diff_source-nil_iff :
      (a b : Option (GitHubSource Time)) → (values.diff_source a b ≡ []) ↔ (a ≡ b)

join_if-none_iff :
    (c : Bool) (text : Bytes) (e : Option Err)
    → (join_if c text e ≡ none) ↔ ((e ≡ none) × (c ≡ false))
unfolding join_if join
join_if-none_iff false text e = (λ h. (h, refl), λ (h, _). h)
join_if-none_iff true text none = (λ h. absurd (cc), λ (_, h). absurd (cc))
join_if-none_iff true text (some e) = (λ h. absurd (cc), λ (h, _). absurd (cc))

-- One more difference to be joined.
join_diff-none_iff :
    {P Q : Type 0} (text diff : Bytes) (e : Option Err)
    → (e ≡ none) ↔ P
    → (diff ≡ []) ↔ Q
    → (join_diff text diff e ≡ none) ↔ (P × Q)
join_diff-none_iff text diff e before same =
    ground (arith, join_if-none_iff (not (diff == [])) (text ++ diff) e)

module _ {S V Any Time : Type 0} (values : Values S V Any Time) (diffs : DiffLaws values) where
  -- The payload is the uploaded policy, and the source is the wanted one.
  abbrev pub PolicyWanted : Bytes → PmapEvent Any Time → S → Type 0
  PolicyWanted trace event payload =
      (want_payload values trace ≡ payload) × (some want_github_source ≡ event.github_source)

  pub policy_diff-none_iff :
      (trace : Bytes) (event : PmapEvent Any Time) (payload : S)
      → (policy_diff values trace event payload ≡ none) ↔ PolicyWanted trace event payload
  unfolding policy_diff
  policy_diff-none_iff trace event payload =
      let (to, from) =
        join_diff-none_iff source_differs _ _
          (join_diff-none_iff payload_differs _ none ((λ _. tt), (λ _. refl))
            (diffs.diff_struct-nil_iff (want_payload values trace) payload))
          (diffs.diff_source-nil_iff (some want_github_source) event.github_source) in
      (λ h. let ((_, a), c) = to h in (a, c), λ (a, c). from ((tt, a), c))

module _ {S V Value Any Time : Type 0} (structs : Structs S Value) (values : Values S V Any Time)
    (diffs : DiffLaws values) where
  -- The mapping and the source are the wanted ones, and the asset inventory has annotated the
  -- mapping.
  abbrev pub MappingWanted : Config → PmapEvent Any Time → ResourceMapping S → Type 0
  MappingWanted cfg event m =
      ((want_resource_mapping {S = S} cfg).resource ≡ m.resource)
      × ((want_resource_mapping {S = S} cfg).contacts ≡ m.contacts)
      × (some want_github_source ≡ event.github_source)
      × (has_ancestors structs values m ≡ true)

  pub mapping_diff-none_iff :
      (cfg : Config) (event : PmapEvent Any Time) (m : ResourceMapping S)
      → (mapping_diff structs values cfg event m ≡ none) ↔ MappingWanted cfg event m
  unfolding mapping_diff
  mapping_diff-none_iff cfg event m =
      let (to, from) =
        join_diff-none_iff source_differs _ _
          (join_diff-none_iff mapping_differs _ none ((λ _. tt), (λ _. refl))
            (diffs.diff_mapping-nil_iff (want_resource_mapping cfg) m))
          (diffs.diff_source-nil_iff (some want_github_source) event.github_source) in
      let (ancestors, back) =
        join_if-none_iff (not (has_ancestors structs values m)) no_ancestors _ in
      (
        λ h.
            let (first, found) = ancestors h in
            let ((_, (a, b)), c) = to first in (a, b, c, ground arith),
        λ (a, b, c, found). back (from ((tt, (a, b)), c), ground arith),
      )
