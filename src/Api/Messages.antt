-- ===== src/Api/Messages.antt =====
-- The messages of apis/v1alpha1/resource_mapping.pb.go with their getters. The getters of a nil
-- message give the zero value. `S` is the type of `structpb.Struct`.
use pmap.Base.{Option, none, some, List, [], Bytes, codes}
use pmap.Base.Dict.{Dict}
use pmap.Errors.Fallible.{Fallible}

-- `Resource`
pub record Resource : Type 0 where
  pub provider : Bytes
  pub name : Bytes
  pub subscope : Bytes

-- `Contacts`
pub record Contacts : Type 0 where
  pub email : List Bytes

-- `ResourceMapping`
pub record ResourceMapping (S : Type 0) : Type 0 where
  pub resource : Option Resource
  pub contacts : Option Contacts
  pub annotations : Option S

-- `GetProvider`, `GetName`, `GetSubscope` and `GetEmail`
abbrev pub get_provider : Option Resource → Bytes
get_provider none = []
get_provider (some r) = r.provider

abbrev pub get_name : Option Resource → Bytes
get_name none = []
get_name (some r) = r.name

abbrev pub get_subscope : Option Resource → Bytes
get_subscope none = []
get_subscope (some r) = r.subscope

abbrev pub get_email : Option Contacts → List Bytes
get_email none = []
get_email (some c) = c.email

abbrev pub annotation_key_asset_info : Bytes
annotation_key_asset_info = codes "assetInfo"

-- The operations of `structpb.Struct` over the values of a Go map: `AsMap`, which takes nil too, and
-- `NewStruct`.
pub record Structs (S Value : Type 0) : Type 0 where
  pub as_map : Option S → Dict Value
  pub new_struct : Dict Value → Fallible S
