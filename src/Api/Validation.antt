-- ===== src/Api/Validation.antt =====
-- `ValidateResourceMapping` and `validateResource` of apis/v1alpha1/validation.go.
pub mod Faults
use pmap.Base.{
  Bool, true, false, Option, none, some, List, [], ◌∷◌, ◌++◌, Bytes, codes, ◌==◌, bytes_eq,
  if◌then◌else◌,
}
use pmap.Base.Dict.{Dict, lookup}
use pmap.Errors.{Err, plain, wrapped, join}
use pmap.Errors.Fallible.{Fallible}
use pmap.Server.Config.{join_if}
use pmap.Api.Messages.{
  Resource, ResourceMapping, Structs, get_email, get_name, get_provider, annotation_key_asset_info,
}
use pmap.Api.Subscope.{validate_subscope}

abbrev pub is_found : {V : Type 0} → Option V → Bool
is_found none = false
is_found (some v) = true

abbrev pub reserved_key : Bytes
reserved_key = codes "reserved key is included: " ++ annotation_key_asset_info

-- `if err := …; err != nil { vErr = errors.Join(vErr, err) }`
unfoldable pub join_found : Option Err → Option Err → Option Err
join_found e none = e
join_found e (some d) = join e (some d)

abbrev pub invalid_owner : Option Err → Option Err
invalid_owner none = none
invalid_owner (some d) = some (wrapped (codes "invalid owner: ") d)

-- The loop over the addresses. `parse_address` is the error of `mail.ParseAddress`.
unfoldable pub validate_emails : (Bytes → Option Err) → List Bytes → Option Err → Option Err
validate_emails parse_address [] e = e
validate_emails parse_address (x ∷ xs) e =
    validate_emails parse_address xs (join_found e (invalid_owner (parse_address x)))

module _ (quote : Bytes → Bytes) (url_parse : Bytes → Fallible Bytes) where
  -- `validateResource`
  unfoldable pub validate_resource : Option Resource → Option Err
  validate_resource r =
      let e1 = join_if (get_name r == []) (codes "empty resource name") none in
      let e2 = join_if (get_provider r == []) (codes "empty resource provider") e1 in
      join_found e2 (validate_subscope quote url_parse r)

  -- `ValidateResourceMapping`
  module _ {S Value : Type 0} (structs : Structs S Value) (parse_address : Bytes → Option Err) where
    unfoldable pub validate_resource_mapping : ResourceMapping S → Option Err
    validate_resource_mapping m =
        let e1 = validate_emails parse_address (get_email m.contacts) none in
        let reserved = is_found (lookup annotation_key_asset_info (structs.as_map m.annotations)) in
        let e2 = join_if reserved reserved_key e1 in join_found e2 (validate_resource m.resource)
