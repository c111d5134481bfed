-- ===== src/Tests/Nested.antt =====
-- Structs that are maps of maps of texts, and their laws.
use native.Mathlib.Decide.{ℕ_discrete}
use mathlib.Core.HLevel.{×_discrete}
use pmap.Base.{
  ℕ, ◌≡◌, ◌≢◌, ◌↔◌, refl, sym, ap, ◌∙◌, Option, none, some, [], ◌∷◌, Bytes, bytes_eq, nat_eq, arith,
}
use pmap.Base.Dict.{Dict, lookup, insert, NodupKeys, lookup-cons, lookup-insert, insert-NodupKeys}
use pmap.Errors.{plain}
use pmap.Errors.Fallible.{Fallible, value, failed}
use pmap.Api.{ResourceMapping, Structs}
use pmap.Mapping.Inventory.{AnnoValue}
use pmap.Mapping.Inventory.Enrich.{IsLawful}
use pmap.Prober.Config.{Values}
use pmap.Prober.Probe.Diffs.{DiffLaws}
use pmap.Service.Probed.{IsNested}
use pmap.Tests.Probe.{
  Resources-discrete, Contacts-discrete, Sources-discrete, diff_of, diff_of-nil_iff,
}

abbrev Fields : Type 0
Fields = Dict Bytes

abbrev pub Struct : Type 0
Struct = Dict Fields

pub Struct-discrete : Discrete Struct
Struct-discrete = hlevel (ℕ_discrete)

-- Each key once.
unfoldable pub normal : Struct → Struct
normal [] = []
normal ((k, v) ∷ d) = insert k v (normal d)

normal-NodupKeys : (d : Struct) → NodupKeys (normal d)
unfolding normal
normal-NodupKeys [] = tt
normal-NodupKeys ((k, v) ∷ d) = insert-NodupKeys k v (normal d) (normal-NodupKeys d)

lookup-normal : (d : Struct) (k : Bytes) → lookup k (normal d) ≡ lookup k d
unfolding normal
lookup-normal [] k = refl
lookup-normal ((j, v) ∷ d) k =
    ground (arith, lookup-normal d k, lookup-cons k j v d, lookup-insert k j v (normal d))

abbrev as_map : Option Struct → Struct
as_map none = []
as_map (some s) = normal s

abbrev pub structs : Structs Struct Fields
structs = record { as_map = as_map; new_struct = λ m. value m }

as_map-NodupKeys : (s : Option Struct) → NodupKeys (as_map s)
as_map-NodupKeys none = tt
as_map-NodupKeys (some s) = normal-NodupKeys s

value-inj : {s t : Struct} → ◌≡◌ {A = Fallible Struct} (value s) (value t) → s ≡ t
value-inj h = cc

pub lawful : IsLawful structs
lawful = record {
  as_map-NodupKeys = as_map-NodupKeys;
  as_map-new_struct = λ m s h k. lookup-normal s k ∙ ap (lookup k) (sym (value-inj h));
}

abbrev pub Annos : Type 0
Annos = Dict (AnnoValue ℕ Bytes)

-- Of the annotations the keys are kept.
abbrev pub names : Annos → Fields
names [] = []
names ((k, _) ∷ d) = (k, []) ∷ names d

abbrev pub to_proto_struct : Dict Annos → Fallible Struct
to_proto_struct [] = value []
to_proto_struct ((k, d) ∷ _) = value ((k, names d) ∷ [])

abbrev inner : Fields → Struct
inner [] = []
inner ((k, _) ∷ d) = (k, []) ∷ inner d

abbrev struct_value : Option Fields → Option Struct
struct_value none = none
struct_value (some v) = some (inner v)

lookup-inner : (j : Bytes) (d : Annos) → lookup j d ≢ none → lookup j (inner (names d)) ≢ none
unfolding lookup
lookup-inner j [] h = absurd (h refl)
lookup-inner j ((k, v) ∷ d) h = ground (arith, lookup-inner j d)

abbrev same_mapping : (a b : ResourceMapping Struct) → Bytes
same_mapping a b = diff_of (
    ×_discrete Resources-discrete Contacts-discrete (a.resource, a.contacts)
      (b.resource, b.contacts))

-- An event's payload is the mapping itself.
abbrev pub values : Values Struct Fields (ResourceMapping Struct) ℕ
values = record {
  of_fields = λ d. d;
  string_value = λ s. [];
  struct_value = λ s. [];
  list_value = λ l. [];
  get_fields = as_map;
  get_struct_value = struct_value;
  unmarshal_event = λ text. failed (plain text);
  to_mapping = λ any. elim any [ none ↦ failed (plain []) | some m ↦ value m ];
  to_struct = λ any. failed (plain []);
  diff_mapping = same_mapping;
  diff_struct = λ a b. diff_of (Struct-discrete a b);
  diff_source = λ a b. diff_of (Sources-discrete a b);
}

same_mapping-nil_iff :
    (a b : ResourceMapping Struct)
    → (same_mapping a b ≡ []) ↔ ((a.resource ≡ b.resource) × (a.contacts ≡ b.contacts))
same_mapping-nil_iff a b =
    let (to, from) = diff_of-nil_iff (
      ×_discrete Resources-discrete Contacts-discrete (a.resource, a.contacts)
        (b.resource, b.contacts)) in
    (λ h. let p = to h in (ap (λ q. q.0) p, ap (λ q. q.1) p), λ (r, c). from (cc))

pub diffs : DiffLaws values
diffs = record {
  diff_mapping-nil_iff = same_mapping-nil_iff;
  diff_struct-nil_iff = λ a b. diff_of-nil_iff (Struct-discrete a b);
  diff_source-nil_iff = λ a b. diff_of-nil_iff (Sources-discrete a b);
}

packed_lookup :
    (k : Bytes) (d : Annos) (t : Struct)
    → ◌≡◌ {A = Fallible Struct} (value ((k, names d) ∷ [])) (value t)
    → lookup k (normal t) ≡ some (names d)
unfolding lookup
packed_lookup k d t h = lookup-normal t k ∙ (ap (lookup k) (sym (value-inj h)) ∙ ground arith)

pub values-IsNested : IsNested structs values to_proto_struct
values-IsNested = record {
  nested-ext = λ s t k h. ap (λ o. as_map (struct_value o)) h;
  packed-outer = λ k d t h e. let found = packed_lookup k d t h in cc;
  packed-inner = λ k j d t h full e. lookup-inner j d full (
      sym (lookup-normal (inner (names d)) j)
      ∙ (ap (λ o. lookup j (as_map (struct_value o))) (sym (packed_lookup k d t h)) ∙ e));
}
