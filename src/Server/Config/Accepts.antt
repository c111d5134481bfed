-- ===== src/Server/Config/Accepts.antt =====
-- Which configurations the mapping service starts with.
use pmap.Base.{
  ◌≡◌, ◌≢◌, ◌↔◌, ◌⊎◌, inl, inr, refl, sym, ◌∙◌, Bool, true, false, Option, none, some, [], ◌∷◌,
  ◌++◌, Bytes, codes, arith, ◌==◌, bytes_eq, nat_eq, if◌then◌else◌,
}
use pmap.Errors.{Err, plain, join}
use pmap.Go.Strings.{split, first, cut_before, cut_after, contains}
use pmap.Go.Strings.Cut.{first-split, cut_before_parts, cut_before_whole, cut_before-append}
use pmap.Server.Config.{
  HandlerConfig, MappingHandlerConfig, validate, join_if, is_scope_kind, no_failure_topic, no_scope,
  bad_scope, validate_mapping,
}
use pmap.Server.Config.Laws.{join_if-none_iff, empty_iff}

-- A scope kind, alone or with a slash and any text behind it.
abbrev pub HasKind : Bytes → Type 0
HasKind scope =
    (k : Bytes) × (is_scope_kind k ≡ true)
    × ((scope ≡ k) ⊎ ((rest : Bytes) × (scope ≡ k ++ (b'/' ∷ rest))))

kind-contains : (k : Bytes) → is_scope_kind k ≡ true → contains k b'/' ≡ false
unfolding is_scope_kind contains nat_eq
kind-contains k h = ground arith

kind-ne-nil : (k : Bytes) → is_scope_kind k ≡ true → k ≢ []
unfolding is_scope_kind
kind-ne-nil k h e = ground arith

module _ (scope : Bytes) where
  HasKind-iff : (is_scope_kind (first (split scope (codes "/"))) ≡ true) ↔ HasKind scope
  HasKind-iff = (
    λ h.
        let k = rw first-split at h in
        (cut_before scope b'/', k, shape (cut_before_parts b'/' scope)),
    λ (k, kind, form). rw first-split (back k kind form),
  )
    where
      shape :
          (scope ≡ cut_before scope b'/')
            ⊎ (scope ≡ cut_before scope b'/' ++ (b'/' ∷ cut_after scope b'/'))
          → (scope ≡ cut_before scope b'/')
            ⊎ ((rest : Bytes) × (scope ≡ cut_before scope b'/' ++ (b'/' ∷ rest)))
      shape (inl whole) = inl whole
      shape (inr cut) = inr (cut_after scope b'/', cut)

      back :
          (k : Bytes)
          → is_scope_kind k ≡ true
          → (scope ≡ k) ⊎ ((rest : Bytes) × (scope ≡ k ++ (b'/' ∷ rest)))
          → is_scope_kind (cut_before scope b'/') ≡ true
      back k kind (inl same) = rw (same, cut_before_whole b'/' k (kind-contains k kind)) kind
      back k kind (inr (rest, same)) =
          rw (same, cut_before-append b'/' k rest (kind-contains k kind)) kind

  HasKind-ne-nil : HasKind scope → scope ≢ []
  HasKind-ne-nil (k, kind, inl same) e = kind-ne-nil k kind (sym same ∙ e)
  HasKind-ne-nil (k, kind, inr (rest, same)) e = ground (arith, kind-ne-nil k kind)

pub validate-none_iff :
    (cfg : HandlerConfig)
    → (validate cfg ≡ none) ↔ ((cfg.project_id ≢ []) × (cfg.success_topic_id ≢ []))
unfolding validate
validate-none_iff cfg = ground arith

join-none_iff : (e : Option Err) → (join none e ≡ none) ↔ (e ≡ none)
unfolding join
join-none_iff none = (λ _. refl, λ _. refl)
join-none_iff (some d) = (λ h. absurd (cc), λ h. absurd (cc))

join_unless_iff :
    (c : Bool) (e : Option Err) (d : Err)
    → ((if c then e else join e (some d)) ≡ none) ↔ ((c ≡ true) × (e ≡ none))
unfolding join
join_unless_iff true e d = (λ h. (refl, h), λ h. h.1)
join_unless_iff false none d = (λ h. absurd (cc), λ h. absurd (cc))
join_unless_iff false (some e) d = (λ h. absurd (cc), λ h. absurd (cc))

-- A configuration of the mapping service is valid exactly if the project, both topics and the
-- scope are given, and the scope is one of the three kinds, alone or with a slash and any text
-- behind it.
pub validate_mapping-none_iff :
    (cfg : MappingHandlerConfig)
    → (validate_mapping cfg ≡ none) ↔ (
        (cfg.handler_config.project_id ≢ [])
        × (cfg.handler_config.success_topic_id ≢ [])
        × (cfg.handler_config.failure_topic_id ≢ [])
        × HasKind cfg.default_resource_scope)
unfolding validate_mapping
validate_mapping-none_iff cfg =
    let scope = cfg.default_resource_scope in
    let topic = cfg.handler_config.failure_topic_id in
    let e0 = join none (validate cfg.handler_config) in
    let e1 = join_if (topic == []) no_failure_topic e0 in
    let e2 = join_if (scope == []) no_scope e1 in
    let (base, base') = validate-none_iff cfg.handler_config in
    let (start, start') = join-none_iff (validate cfg.handler_config) in
    let (failing, failing') = join_if-none_iff (topic == []) no_failure_topic e0 in
    let (scoped, scoped') = join_if-none_iff (scope == []) no_scope e1 in
    let (last, last') =
      join_unless_iff (is_scope_kind (first (split scope (codes "/")))) e2
        (plain (bad_scope scope)) in
    let (kind, kind') = HasKind-iff scope in
    (
      λ h.
          let (known, h2) = last h in
          let (topic_given, h0) = failing (scoped h2).1 in
          let (project, success) = base (start h0) in
          (project, success, (empty_iff topic).0 topic_given, kind known),
      λ (project, success, topic_given, has). last' (
        kind' has,
        scoped' (
          (empty_iff scope).1 (HasKind-ne-nil scope has),
          failing' ((empty_iff topic).1 topic_given, start' (base' (project, success))),
        ),
      ),
    )
