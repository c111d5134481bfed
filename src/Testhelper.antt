-- ===== src/Testhelper.antt =====
-- internal/testhelper: `SingleBQEntry` of bq.go and `UploadGCSFile` of gcs.go. `W` is what is
-- outside: the services, and how long the calls so far took.
pub mod Retries
use pmap.Base.{Option, none, some, Bytes, codes, List, ℕ}
use pmap.Base.Dict.{Dict}
use pmap.Errors.{Err, wrapped, Result}
use pmap.Errors.Fallible
use pmap.Errors.Fallible.{Fallible, value, failed}
use pmap.Go.Strconv.{ℤ}

-- A call that changes what is outside.
abbrev pub Act : Type 0 → Type 0 → Type 0
Act W A = W → Fallible A × W

module _ {W A : Type 0} where
  abbrev pub lift : Fallible A → Act W A
  lift r w = (r, w)

  abbrev wrap_result : Bytes → Fallible A × W → Fallible A × W
  wrap_result text (r, w) = (Fallible.or_wrap r text, w)

  -- `if err != nil { return fmt.Errorf("text%w", err) }`
  abbrev pub or_wrap : Act W A → Bytes → Act W A
  or_wrap m text w = wrap_result text (m w)

abbrev pub proceed : {W A B : Type 0} → (A → Act W B) → Fallible A × W → Fallible B × W
proceed f (value a, w) = f a w
proceed f (failed e, w) = (failed e, w)

infixl 5 ◌>>=◌ ◌>>◌
abbrev pub ◌>>=◌ : {W A B : Type 0} → Act W A → (A → Act W B) → Act W B
◌>>=◌ m f w = proceed f (m w)

abbrev pub ◌>>◌ : {W A B : Type 0} → Act W A → Act W B → Act W B
m >> k = m >>= λ _. k

-- `BQEntry`
pub record BqEntry : Type 0 where
  pub data_text : Bytes
  pub attributes : Bytes

-- `bigquery.Query`: its text and the values of its parameters.
pub record Query : Type 0 where
  pub text : Bytes
  pub parameters : List Bytes

-- `Run`, `Wait` with the status's `Err`, `Read` and `Next` of the BigQuery client.
pub record BigQuery (W Job Rows : Type 0) : Type 0 where
  pub run : Query → Act W Job
  pub wait : Job → Act W (Option Err)
  pub read : Job → Act W Rows
  pub next : Rows → Act W BqEntry

-- go-retry: `Do` with a function that changes what it closes over, `RetryableError`,
-- `WithMaxRetries`, and `NewConstant`, which panics on a wait that is not positive.
pub record Retry (Backoff : Type 0) : Type 1 where
  pub retry_do : {S : Type 0} → Backoff → (S → Option Err × S) → S → Option Err × S
  pub retryable_error : Err → Err
  pub with_max_retries : ℕ → Backoff → Backoff
  pub new_constant : ℤ → Result Backoff

-- What a status says of the job.
abbrev status_error : Option Err → Fallible (Unit {0})
status_error none = value tt
status_error (some e) = failed (wrapped (codes "query failed: ") e)

module _ {W Job Rows : Type 0} (bq : BigQuery W Job Rows) where
  -- The function inside, which is called once for each attempt.
  unfoldable pub first_entry : Query → Act W BqEntry
  first_entry q = do
    job ← or_wrap (bq.run q) (codes "failed to run query: ")
    status ← or_wrap (bq.wait job) (codes "failed to wait for query: ")
    lift (status_error status)
    rows ← or_wrap (bq.read job) (codes "failed to read query result: ")
    or_wrap (bq.next rows) (codes "failed to read first entry: ")

  module _ {Backoff : Type 0} (retry : Retry Backoff) where
    abbrev pub tried : Option BqEntry → Fallible BqEntry × W → Option Err × (W × Option BqEntry)
    tried entry (value result, w) = (none, (w, some result))
    tried entry (failed e, w) =
        (some (retry.retryable_error (wrapped (codes "failed to get entry: ") e)), (w, entry))

    -- The function that is retried, with the variable `entry` that it assigns.
    unfoldable pub try_entry : Query → W × Option BqEntry → Option Err × (W × Option BqEntry)
    try_entry q (w, entry) = tried entry (first_entry q w)

    abbrev pub finished : Option Err × (W × Option BqEntry) → Fallible (Option BqEntry) × W
    finished (none, (w, entry)) = (value entry, w)
    finished (some e, (w, entry)) =
        (failed (wrapped (codes "failed to get matched bq entry: ") e), w)

    -- `SingleBQEntry`; the pointer that it returns may be nil.
    unfoldable pub single_bq_entry : Query → Backoff → Act W (Option BqEntry)
    single_bq_entry q backoff w = finished (retry.retry_do backoff (try_entry q) (w, none))

-- A `storage.Writer` of an object, made under the condition that the object does not exist yet:
-- `io.Copy` into it and its `Close`.
pub record Upload (W Writer : Type 0) : Type 0 where
  pub new_writer : (bucket object : Bytes) → Dict Bytes → Writer
  pub copy : Writer → Bytes → Act W (Unit {0})
  pub close : Writer → Act W (Unit {0})

module _ {W Writer : Type 0} (gcs : Upload W Writer) where
  -- `UploadGCSFile`
  unfoldable pub upload_gcs_file :
      (bucket object data_bytes : Bytes) → Dict Bytes → Act W (Unit {0})
  upload_gcs_file bucket object data_bytes metadata = do
    let wc = gcs.new_writer bucket object metadata
    or_wrap (gcs.copy wc data_bytes) (codes "failed to copy bytes: ")
    or_wrap (gcs.close wc) (codes "failed to close writer: ")
