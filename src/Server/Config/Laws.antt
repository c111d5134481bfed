-- ===== src/Server/Config/Laws.antt =====
-- Which configurations are accepted, and that every fault is reported.
use mathlib.Core.List.{append_assoc, append-nil}
use pmap.Base.{
  ◌↔◌, ◌≢◌, refl, none, arith, ◌≡◌, inl, inr, ◌∙◌, Bool, true, false, Option, some, List, [], ◌∷◌,
  ◌++◌, Bytes, codes, ◌==◌, bytes_eq, nat_eq, if◌then◌else◌, Bool-cases,
}
use pmap.Errors.{join, Err, plain}
use pmap.Errors.Leaves.{leaves, leaves-none, leaves-plain, leaves-join}
use pmap.Go.Strings.{split, first}
use pmap.Server.Config.{
  MappingHandlerConfig, validate, join_if, is_scope_kind, no_failure_topic, no_scope, bad_scope,
  validate_mapping,
}

abbrev pub note : Bool → Bytes → List Bytes
note c text = if c then text ∷ [] else []

pub leaves-join_if :
    (c : Bool) (text : Bytes) (e : Option Err) → leaves (join_if c text e) ≡ leaves e ++ note c text
unfolding join_if
leaves-join_if true text e = leaves-join e (some (plain text)) ∙ rw (leaves-plain text)
leaves-join_if false text e = rw append-nil

-- A configuration is reported with the first fault that the base check finds, and with each of the
-- missing failure topic, the missing scope and the scope of no known kind, in this order.
pub validate_mapping-leaves :
    (cfg : MappingHandlerConfig)
    → leaves (validate_mapping cfg)
      ≡ leaves (validate cfg.handler_config)
        ++ (note (cfg.handler_config.failure_topic_id == []) no_failure_topic
            ++ (note (cfg.default_resource_scope == []) no_scope
                ++ (if is_scope_kind (first (split cfg.default_resource_scope (codes "/")))
                    then []
                    else bad_scope cfg.default_resource_scope ∷ [])))
unfolding validate_mapping
validate_mapping-leaves cfg =
    elim (Bool-cases (is_scope_kind (first (split cfg.default_resource_scope (codes "/"))))) [
      | inl known ↦
          rw known (simp (leaves-join_if, leaves-join, leaves-none, append-nil, append_assoc))
      | inr unknown ↦
          rw unknown (
            simp (leaves-join_if, leaves-join, leaves-none, leaves-plain, append-nil, append_assoc))
    ]

pub join_if-none_iff :
    (c : Bool) (text : Bytes) (e : Option Err)
    → (join_if c text e ≡ none) ↔ ((c ≡ false) × (e ≡ none))
unfolding join_if join
join_if-none_iff false text e = (λ h. (refl, h), λ h. h.1)
join_if-none_iff true text none = (λ h. absurd (cc), λ h. absurd (cc))
join_if-none_iff true text (some e) = (λ h. absurd (cc), λ h. absurd (cc))

pub empty_iff : (s : Bytes) → ((s == []) ≡ false) ↔ (s ≢ [])
empty_iff s = ground arith
