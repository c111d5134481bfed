-- ===== src/Api/Validation/Faults.antt =====
-- Every fault of a resource mapping is reported, and a mapping without one is accepted.
use mathlib.Core.List.{append-nil, append_assoc}
use pmap.Base.{
  ◌≡◌, ◌≢◌, ◌↔◌, refl, ◌∙◌, false, Option, none, some, List, [], ◌∷◌, ◌++◌, Bytes, codes, ◌==◌,
  bytes_eq, All,
}
use pmap.Base.Dict.{lookup}
use pmap.Errors.{Err, join}
use pmap.Errors.Leaves.{leaves, leaves-none, leaves-join}
use pmap.Errors.Fallible.{Fallible}
use pmap.Server.Config.{join_if}
use pmap.Server.Config.Laws.{note, leaves-join_if, join_if-none_iff, empty_iff}
use pmap.Api.Messages.{
  Resource, ResourceMapping, Structs, get_email, get_name, get_provider, annotation_key_asset_info,
}
use pmap.Api.Subscope.{validate_subscope}
use pmap.Api.Validation.{
  is_found, reserved_key, join_found, invalid_owner, validate_emails, validate_resource,
  validate_resource_mapping,
}

-- The report of each address that is not one, in order.
abbrev pub bad_emails : (Bytes → Option Err) → List Bytes → List Bytes
bad_emails parse_address [] = []
bad_emails parse_address (x ∷ xs) =
    leaves (invalid_owner (parse_address x)) ++ bad_emails parse_address xs

pub leaves-join_found : (e d : Option Err) → leaves (join_found e d) ≡ leaves e ++ leaves d
unfolding join_found
leaves-join_found e none = rw (leaves-none, append-nil)
leaves-join_found e (some d) = leaves-join e (some d)

leaves-validate_emails :
    (parse_address : Bytes → Option Err) (xs : List Bytes) (e : Option Err)
    → leaves (validate_emails parse_address xs e) ≡ leaves e ++ bad_emails parse_address xs
unfolding validate_emails
leaves-validate_emails parse_address [] e = rw append-nil
leaves-validate_emails parse_address (x ∷ xs) e =
    leaves-validate_emails parse_address xs _ ∙ rw (leaves-join_found, append_assoc)

pub join_found-none_iff : (e d : Option Err) → (join_found e d ≡ none) ↔ ((e ≡ none) × (d ≡ none))
unfolding join_found join
join_found-none_iff e none = (λ h. (h, refl), λ h. h.0)
join_found-none_iff none (some d) = (λ h. absurd (cc), λ h. absurd (cc))
join_found-none_iff (some e) (some d) = (λ h. absurd (cc), λ h. absurd (cc))

invalid_owner-none_iff : (r : Option Err) → (invalid_owner r ≡ none) ↔ (r ≡ none)
invalid_owner-none_iff none = (λ _. refl, λ _. refl)
invalid_owner-none_iff (some d) = (λ h. absurd (cc), λ h. absurd (cc))

validate_emails-none_iff :
    (parse_address : Bytes → Option Err) (xs : List Bytes) (e : Option Err)
    → (validate_emails parse_address xs e ≡ none)
      ↔ ((e ≡ none) × All (λ x. parse_address x ≡ none) xs)
unfolding validate_emails
validate_emails-none_iff parse_address [] e = (λ h. (h, tt), λ h. h.0)
validate_emails-none_iff parse_address (x ∷ xs) e =
    let r = invalid_owner (parse_address x) in
    let (to, from) = validate_emails-none_iff parse_address xs (join_found e r) in
    let (split, both) = join_found-none_iff e r in
    let (valid, silent) = invalid_owner-none_iff (parse_address x) in
    (
      λ h. ((split (to h).0).0, (valid (split (to h).0).1, (to h).1)),
      λ (none_yet, (good, rest)). from (both (none_yet, silent good), rest),
    )

found_iff : {V : Type 0} (o : Option V) → (is_found o ≡ false) ↔ (o ≡ none)
found_iff none = (λ _. refl, λ _. refl)
found_iff (some v) = (λ h. absurd (cc), λ h. absurd (cc))

module _ (quote : Bytes → Bytes) (url_parse : Bytes → Fallible Bytes) where
  leaves-validate_resource :
      (r : Option Resource)
      → leaves (validate_resource quote url_parse r)
        ≡ note (get_name r == []) (codes "empty resource name")
          ++ (note (get_provider r == []) (codes "empty resource provider")
              ++ leaves (validate_subscope quote url_parse r))
  unfolding validate_resource
  leaves-validate_resource r = simp (leaves-join_found, leaves-join_if, leaves-none, append_assoc)

  validate_resource-none_iff :
      (r : Option Resource)
      → (validate_resource quote url_parse r ≡ none)
        ↔ ((get_name r ≢ []) × (get_provider r ≢ []) × (validate_subscope quote url_parse r ≡ none))
  unfolding validate_resource
  validate_resource-none_iff r =
      let e1 = join_if (get_name r == []) (codes "empty resource name") none in
      let e2 = join_if (get_provider r == []) (codes "empty resource provider") e1 in
      let (split, both) = join_found-none_iff e2 (validate_subscope quote url_parse r) in
      let (split2, both2) =
        join_if-none_iff (get_provider r == []) (codes "empty resource provider") e1 in
      let (split1, both1) =
        join_if-none_iff (get_name r == []) (codes "empty resource name") none in
      (
        λ h. (
          (empty_iff _).0 (split1 (split2 (split h).0).1).0,
          (empty_iff _).0 (split2 (split h).0).0,
          (split h).1,
        ),
        λ (named, provided, scoped).
            both (both2 ((empty_iff _).1 provided, both1 ((empty_iff _).1 named, refl)), scoped),
      )

  module _ {S Value : Type 0} (structs : Structs S Value) (parse_address : Bytes → Option Err) where
    -- The errors that are reported are, in order, those of the addresses, the reserved key, an
    -- empty name, an empty provider, and that of the subscope.
    pub validate_resource_mapping-leaves :
        (m : ResourceMapping S)
        → leaves (validate_resource_mapping quote url_parse structs parse_address m)
          ≡ bad_emails parse_address (get_email m.contacts)
            ++ (note
                  (is_found (lookup annotation_key_asset_info (structs.as_map m.annotations)))
                  reserved_key
                ++ (note (get_name m.resource == []) (codes "empty resource name")
                    ++ (note (get_provider m.resource == []) (codes "empty resource provider")
                        ++ leaves (validate_subscope quote url_parse m.resource))))
    unfolding validate_resource_mapping
    validate_resource_mapping-leaves m = simp (
      leaves-join_found, leaves-join_if, leaves-validate_emails, leaves-validate_resource,
      leaves-none, append_assoc,
    )

    -- A mapping is accepted exactly if all addresses are addresses, the reserved key is not among
    -- the annotations, the resource has a name and a provider, and its subscope is accepted.
    pub validate_resource_mapping-none_iff :
        (m : ResourceMapping S)
        → (validate_resource_mapping quote url_parse structs parse_address m ≡ none) ↔ (
            All (λ x. parse_address x ≡ none) (get_email m.contacts)
            × (lookup annotation_key_asset_info (structs.as_map m.annotations) ≡ none)
            × (get_name m.resource ≢ [])
            × (get_provider m.resource ≢ [])
            × (validate_subscope quote url_parse m.resource ≡ none))
    unfolding validate_resource_mapping
    validate_resource_mapping-none_iff m =
        let e1 = validate_emails parse_address (get_email m.contacts) none in
        let reserved = lookup annotation_key_asset_info (structs.as_map m.annotations) in
        let e2 = join_if (is_found reserved) reserved_key e1 in
        let (split, both) = join_found-none_iff e2 (validate_resource quote url_parse m.resource) in
        let (split2, both2) = join_if-none_iff (is_found reserved) reserved_key e1 in
        let (split1, both1) = validate_emails-none_iff parse_address (get_email m.contacts) none in
        let (resource, back) = validate_resource-none_iff m.resource in
        (
          λ h.
              let (named, provided, scoped) = resource (split h).1 in
              (
                (split1 (split2 (split h).0).1).1,
                (found_iff _).0 (split2 (split h).0).0,
                named,
                provided,
                scoped,
              ),
          λ (addresses, free, named, provided, scoped). both (
            both2 ((found_iff _).1 free, both1 (refl, addresses)),
            back (named, provided, scoped),
          ),
        )
