-- ===== src/Server/Source/Fields.antt =====
-- Which metadata the source is made of, and when reading it panics.
use pmap.Base.{
  ◌<◌, ◌^◌, ◌≡◌, ◌≢◌, ◌↔◌, refl, Option, none, some, List, [], ◌∷◌, Bytes, codes, arith,
  Option-cases, inl, inr,
}
use pmap.Base.Dict.{Dict, lookup}
use pmap.Errors.{Result, ok, err, panicked}
use pmap.Go.Strconv.{pos, parse_int}
use pmap.Go.Strconv.Bounds.{IsInt64, parse_int-IsInt64, OnlyDigits, spelled, parse_int-OnlyDigits}
use pmap.Server.Source.{
  GitHubSource, NotificationPayload, metadata_key_git_hub_commit, metadata_key_git_hub_repo,
  metadata_key_workflow, metadata_key_workflow_sha, metadata_key_workflow_triggered_timestamp,
  metadata_key_workflow_run_id, metadata_key_workflow_run_attempt, number_or_zero, run_attempt,
  set_timestamp, parse_payload, parse_git_hub_source,
}

-- The keys that are read.
abbrev pub read_keys : List Bytes
read_keys =
    metadata_key_git_hub_commit ∷ metadata_key_git_hub_repo ∷ metadata_key_workflow
    ∷ metadata_key_workflow_sha ∷ metadata_key_workflow_triggered_timestamp
    ∷ metadata_key_workflow_run_id ∷ metadata_key_workflow_run_attempt ∷ []

-- Two maps hold the same at each of the keys.
abbrev pub AgreeOn : List Bytes → Dict Bytes → Dict Bytes → Type 0
AgreeOn [] d e = Unit
AgreeOn (k ∷ ks) d e = (lookup k d ≡ lookup k e) × AgreeOn ks d e

number_or_zero-IsInt64 : (s : Bytes) → IsInt64 (number_or_zero (parse_int s))
number_or_zero-IsInt64 s = elim (Option-cases (parse_int s)) [
  | inl bad ↦ rw bad (omega arith)
  | inr (z, good) ↦ rw good (parse_int-IsInt64 s z good)
]

-- The run attempt is an int64, whatever the metadata says.
pub run_attempt-IsInt64 : (ra : Option Bytes) → IsInt64 (run_attempt ra)
unfolding run_attempt
run_attempt-IsInt64 none = omega arith
run_attempt-IsInt64 (some s) = number_or_zero-IsInt64 s

-- A run attempt of digits that spell an int64 is the number that they spell.
pub run_attempt-OnlyDigits :
    (s : Bytes)
    → s ≢ []
    → OnlyDigits s
    → spelled 0 s < 2 ^ 63
    → run_attempt (some s) ≡ pos (spelled 0 s)
unfolding run_attempt
run_attempt-OnlyDigits s full all small = rw (parse_int-OnlyDigits s full all small)

module _ {Time : Type 0} (parse_time : Bytes → Result Time) where
  set_timestamp-ne-panicked :
      (t : Option Bytes) (r : GitHubSource Time)
      → ((t : Bytes) → parse_time t ≢ panicked)
      → set_timestamp parse_time t r ≢ panicked
  unfolding set_timestamp
  set_timestamp-ne-panicked none r safe = λ e. cc
  set_timestamp-ne-panicked (some t) r safe = λ e. ground (arith, safe t)

module _ {Time : Type 0} (unmarshal : Bytes → Result (Option NotificationPayload))
    (parse_time : Bytes → Result Time) where
  -- Reading the source panics exactly if the notification's data decodes to nil, as the JSON text
  -- `null` does, for decoders that do not panic themselves.
  pub parse_git_hub_source-panicked_iff :
      (content : Bytes) (obj_attrs : Dict Bytes)
      → unmarshal content ≢ panicked
      → ((t : Bytes) → parse_time t ≢ panicked)
      → (parse_git_hub_source parse_time unmarshal content obj_attrs ≡ panicked)
        ↔ (unmarshal content ≡ ok none)
  unfolding parse_git_hub_source
  parse_git_hub_source-panicked_iff content obj_attrs safe safe_time = go (unmarshal content) safe
    where
      go :
          (r : Result (Option NotificationPayload))
          → r ≢ panicked
          → (parse_payload parse_time obj_attrs r ≡ panicked) ↔ (r ≡ ok none)
      go (ok none) _ = (λ _. refl, λ _. refl)
      go (ok (some pm)) _ =
          (λ e. absurd (set_timestamp-ne-panicked parse_time _ _ safe_time e), λ e. absurd (cc))
      go (err x) _ = (λ e. absurd (cc), λ e. absurd (cc))
      go panicked h = absurd (h refl)

  -- Two notifications that decode to metadata with the same values at the seven keys, and that are
  -- of an object of the same name, give the same source.
  pub parse_git_hub_source_congr :
      (content content' : Bytes) (obj_attrs obj_attrs' : Dict Bytes) {d e : NotificationPayload}
      → unmarshal content ≡ ok (some d)
      → unmarshal content' ≡ ok (some e)
      → AgreeOn read_keys d.metadata e.metadata
      → lookup (codes "objectId") obj_attrs ≡ lookup (codes "objectId") obj_attrs'
      → parse_git_hub_source parse_time unmarshal content obj_attrs
        ≡ parse_git_hub_source parse_time unmarshal content' obj_attrs'
  unfolding parse_git_hub_source
  parse_git_hub_source_congr content content' obj_attrs obj_attrs' {d} {e} read read'
        (c, (r, (f, (s, (t, (i, (a, _))))))) name =
      rw (read, read', name, c, r, f, s, t, i, a)
