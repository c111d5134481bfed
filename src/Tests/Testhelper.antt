-- ===== src/Tests/Testhelper.antt =====
-- A BigQuery table whose entry is there from the third query on, and what is retried.
use pmap.Base.{ℕ, zero, suc, ◌≡◌, refl, Option, none, some, [], codes, leb, if◌then◌else◌}
use pmap.Errors.{Err, plain, wrapped, Result, ok, panicked}
use pmap.Errors.Fallible.{value, failed}
use pmap.Go.Strconv.{ℤ, pos, negsuc}
use pmap.Testhelper.{BqEntry, Query, BigQuery, Retry, first_entry, try_entry, single_bq_entry}
use pmap.Testhelper.Retries.{
  Runs, done, spent, again, RetryLaws, FoundWithin, now, later, single_bq_entry-FoundWithin,
  single_bq_entry-eq,
}

module _ {S : Type 0} (f : S → Option Err × S) where
  -- The calls that are left, behind one that gave `r`.
  abbrev attempts : ℕ → Option Err × S → Option Err × S
  attempts zero r = r
  attempts (suc n) (none, s) = (none, s)
  attempts (suc n) (some e, s) = attempts n (f s)

  attempts-Runs :
      (n : ℕ) (s : S) (r : Option Err × S)
      → f s ≡ r
      → Runs f none n s (attempts n r).0 (attempts n r).1
  attempts-Runs zero s (none, t) h = done h
  attempts-Runs zero s (some e, t) h = spent h
  attempts-Runs (suc n) s (none, t) h = done h
  attempts-Runs (suc n) s (some e, t) h = again h (attempts-Runs n t (f t) refl)

abbrev constant : ℤ → Result ℕ
constant (pos zero) = panicked
constant (pos (suc n)) = ok 0
constant (negsuc n) = panicked

-- A backoff is the number of retries.
abbrev pub retry : Retry ℕ
retry = record {
  retry_do = λ n f s. attempts f n (f s);
  retryable_error = λ e. wrapped (codes "retryable: ") e;
  with_max_retries = λ n b. n;
  new_constant = constant;
}

pub retry_laws : RetryLaws retry none
retry_laws = record { retry_do-Runs = λ f n d b s constant_b only. attempts-Runs f n s (f s) refl }

abbrev pub entry : BqEntry
entry = record { data_text = codes "event"; attributes = [] }

-- The number of queries so far is what is outside.
abbrev pub big_query : BigQuery ℕ (Unit {0}) (Unit {0})
big_query = record {
  run = λ q w. (value tt, suc w);
  wait = λ job w. (value none, w);
  read = λ job w. (value tt, w);
  next =
      λ rows w. if leb 3 w then (value entry, w) else (failed (plain (codes "no more items")), w);
}

abbrev query : Query
query = record { text = codes "SELECT 1"; parameters = [] }

third-FoundWithin : FoundWithin big_query query 10 0 entry 3
unfolding first_entry
third-FoundWithin = later refl (later refl (now refl))

third_run :
    single_bq_entry big_query retry query (retry.with_max_retries 10 0) 0 ≡ (value (some entry), 3)
unfolding single_bq_entry first_entry try_entry
third_run = refl

single_bq_entry-eq_example :
    single_bq_entry big_query retry query (retry.with_max_retries 10 0) 0 ≡ (value (some entry), 3)
single_bq_entry-eq_example =
    single_bq_entry-eq big_query query retry retry_laws 10 (pos 1) 0 refl third-FoundWithin

single_bq_entry-FoundWithin_example :
    (x : BqEntry) × (some entry ≡ some x) × FoundWithin big_query query 10 0 x 3
single_bq_entry-FoundWithin_example =
    single_bq_entry-FoundWithin big_query query retry retry_laws 10 (pos 1) 0 refl 0 3 (some entry)
      third_run
