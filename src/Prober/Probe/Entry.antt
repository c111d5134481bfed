-- ===== src/Prober/Probe/Entry.antt =====
-- `getFirstMatchedBQEntry` of prober/main.go.
use pmap.Base.{◌≡◌, ◌↔◌, ◌≢◌, refl, ap, Option, none, some, Bytes}
use pmap.Errors.{Err, Result, ok, err, panicked}
use pmap.Errors.Fallible.{Fallible, value, failed}
use pmap.Errors.Act.{
  Act, proceed, call_result, wrap_result, proceed-eq-ok, wrap_result-eq-ok, call_result-eq-ok,
}
use pmap.Testhelper.{BqEntry, Query, BigQuery, Retry}
use pmap.Testhelper.Retries.{
  RetryLaws, FoundWithin, single_bq_entry-FoundWithin, single_bq_entry-eq,
}
use pmap.Prober.Config.{Config, entry_data}
use pmap.Prober.Probe.{get_first_matched_bq_entry}

of_entry :
    (entry : Option BqEntry) {x : BqEntry} {text : Bytes}
    → entry ≡ some x
    → entry_data entry ≡ ok text
    → x.data_text ≡ text
of_entry none is_x h = absurd (cc)
of_entry (some y) is_x h = cc

entry_no_panic :
    {W : Type 0} (text : Bytes) (o : Fallible (Option BqEntry) × W)
    → ((entry : Option BqEntry) (v : W) → o ≡ (value entry, v) → (x : BqEntry) × (entry ≡ some x))
    → (proceed (λ entry w. (entry_data entry, w)) (wrap_result text (call_result o))).0 ≢ panicked
entry_no_panic text (value none, w) full h = let (x, bad) = full none w refl in absurd (cc)
entry_no_panic text (value (some x), w) full h = cc
entry_no_panic text (failed e, w) full h = cc

made_no_panic :
    {W B : Type 0} (made : Result B) (f : B → Act W Bytes) (w : W)
    → made ≢ panicked
    → ((b : B) → made ≡ ok b → (f b w).0 ≢ panicked)
    → (proceed f (made, w)).0 ≢ panicked
made_no_panic (ok b) f w positive h = h b refl
made_no_panic (err e) f w positive h = cc
made_no_panic panicked f w positive h = absurd (positive refl)

module _ {W Job Rows Backoff : Type 0} (retry : Retry Backoff) (bq : BigQuery W Job Rows)
    (q : Query) (cfg : Config) where
  -- An entry with the text is found by an attempt within the configured retries.
  abbrev pub FoundText : W → Bytes → W → Type 0
  FoundText w text v =
      (b : Backoff) × (retry.new_constant cfg.query_retry_wait_duration ≡ ok b)
      × (x : BqEntry) × FoundWithin bq q cfg.query_retry_limit w x v
      × (x.data_text ≡ text)

  pack :
      {w u s v : W} {b : Backoff} {x : BqEntry} {entry : Option BqEntry} {text : Bytes}
      → ◌≡◌ {A = Result Backoff × W} (retry.new_constant cfg.query_retry_wait_duration, w) (ok b, u)
      → FoundWithin bq q cfg.query_retry_limit u x s
      → entry ≡ some x
      → ◌≡◌ {A = Result Bytes × W} (entry_data entry, s) (ok text, v)
      → FoundText w text v
  pack {w = w} {u} {s} {v} {b} {x} {entry} made found is_x last =
      let start : u ≡ w = cc in
      let end : s ≡ v = cc in
      let same : entry_data entry ≡ ok _ = ap (λ p. p.0) last in
      (b, cc, x, rw (start, end) at found, of_entry entry is_x same)

  get_first_matched_bq_entry-FoundText :
      {context_error : Option Err} (laws : RetryLaws retry context_error) (w v : W) (text : Bytes)
      → get_first_matched_bq_entry retry bq q cfg w ≡ (ok text, v)
      → FoundText w text v
  unfolding get_first_matched_bq_entry
  get_first_matched_bq_entry-FoundText laws w v text h =
      let (b, u, made, rest) = proceed-eq-ok _ (retry.new_constant _, w) h in
      let (entry, s, got, last) = proceed-eq-ok _ (wrap_result _ (call_result _)) rest in
      let single = call_result-eq-ok _ (wrap_result-eq-ok _ _ got) in
      let constant : retry.new_constant _ ≡ ok b = ap (λ p. p.0) made in
      let (x, is_x, found) =
        single_bq_entry-FoundWithin bq q retry laws _ _ b constant u s entry single in
      pack made found is_x last

  get_first_matched_bq_entry-eq :
      (laws : RetryLaws retry none) (w v : W) (text : Bytes)
      → FoundText w text v
      → get_first_matched_bq_entry retry bq q cfg w ≡ (ok text, v)
  unfolding get_first_matched_bq_entry
  get_first_matched_bq_entry-eq laws w v text (b, made, x, found, same) =
      rw (made, single_bq_entry-eq bq q retry laws cfg.query_retry_limit _ b made found, same) refl

  -- Where the configured wait makes a backoff, the search for an entry does not panic, in a context
  -- that ends or not: the pointer whose data it returns is never nil.
  pub get_first_matched_bq_entry-no_panic :
      {context_error : Option Err} (laws : RetryLaws retry context_error) (w : W)
      → retry.new_constant cfg.query_retry_wait_duration ≢ panicked
      → (get_first_matched_bq_entry retry bq q cfg w).0 ≢ panicked
  unfolding get_first_matched_bq_entry
  get_first_matched_bq_entry-no_panic laws w positive = made_no_panic _ _ w positive (λ b constant.
      entry_no_panic _ _ (λ entry v h.
        let (x, is_x, _) = single_bq_entry-FoundWithin bq q retry laws _ _ b constant w v entry h in
        (x, is_x)))

  pub get_first_matched_bq_entry-ok_iff :
      (laws : RetryLaws retry none) (w v : W) (text : Bytes)
      → (get_first_matched_bq_entry retry bq q cfg w ≡ (ok text, v)) ↔ FoundText w text v
  get_first_matched_bq_entry-ok_iff laws w v text = (
    get_first_matched_bq_entry-FoundText laws w v text,
    get_first_matched_bq_entry-eq laws w v text,
  )
