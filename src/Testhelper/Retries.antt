-- ===== src/Testhelper/Retries.antt =====
-- Which entry `SingleBQEntry` of internal/testhelper/bq.go returns.
use pmap.Base.{ℕ, suc, ◌≡◌, refl, ap, Option, none, some, codes}
use pmap.Errors.{Err, wrapped, ok}
use pmap.Errors.Fallible.{Fallible, value, failed}
use pmap.Go.Strconv.{ℤ}
use pmap.Testhelper.{
  BqEntry, Query, BigQuery, Retry, first_entry, tried, try_entry, finished, single_bq_entry,
}

-- What go-retry's documentation says of `Do` with `WithMaxRetries n` around a constant backoff, for a
-- function whose every error is retryable: the function is called until it returns nil, at most `n` times more than once,
-- unless the context ends before.
pub data Runs {S : Type 0} (f : S → Option Err × S) (context_error : Option Err)
    : ℕ → S → Option Err → S → Type 0 where
  done : {n : ℕ} {s t : S} → f s ≡ (none, t) → Runs f context_error n s none t
  spent : {s t : S} {e d : Err} → f s ≡ (some e, t) → Runs f context_error 0 s (some d) t
  again :
      {n : ℕ} {s t u : S} {e : Err} {r : Option Err}
      → f s ≡ (some e, t)
      → Runs f context_error n t r u
      → Runs f context_error (suc n) s r u
  ended : {n : ℕ} {s : S} {d : Err} → context_error ≡ some d → Runs f context_error n s (some d) s

-- `r` is what `retryable_error` makes of some error.
abbrev OnlyRetryable : {Backoff S : Type 0} → Retry Backoff → (S → Option Err × S) → Type 0
OnlyRetryable {S = S} retry f =
    (s t : S) (e : Err) → f s ≡ (some e, t) → (d : Err) × (e ≡ retry.retryable_error d)

-- What go-retry's documentation promises, for a context with the given error.
pub record RetryLaws {Backoff : Type 0} (retry : Retry Backoff) (context_error : Option Err)
    : Type 1 where
  pub retry_do-Runs :
      {S : Type 0} (f : S → Option Err × S) (n : ℕ) (d : ℤ) (b : Backoff) (s : S)
      → retry.new_constant d ≡ ok b
      → OnlyRetryable retry f
      → let result = retry.retry_do (retry.with_max_retries n b) f s in
        Runs f context_error n s result.0 result.1

module _ {W Job Rows : Type 0} (bq : BigQuery W Job Rows) (q : Query) where
  -- The first attempt that finds an entry is among the next `n` and one, and finds `x`.
  pub data FoundWithin : ℕ → W → BqEntry → W → Type 0 where
    now : {n : ℕ} {w v : W} {x : BqEntry} → first_entry bq q w ≡ (value x, v) → FoundWithin n w x v
    later :
        {n : ℕ} {w v u : W} {x : BqEntry} {e : Err}
        → first_entry bq q w ≡ (failed e, v)
        → FoundWithin n v x u
        → FoundWithin (suc n) w x u

  module _ {Backoff : Type 0} (retry : Retry Backoff) where
    pub tried-none :
        (entry : Option BqEntry) {found : Option BqEntry} {v : W} (o : Fallible BqEntry × W)
        → tried bq retry entry o ≡ (none, (v, found))
        → (x : BqEntry) × (found ≡ some x) × (o ≡ (value x, v))
    tried-none entry (value x, w) h = (x, cc, cc)
    tried-none entry (failed e, w) h = absurd (cc)

    pub tried-some :
        (entry : Option BqEntry) {found : Option BqEntry} {v : W} {e : Err}
        (o : Fallible BqEntry × W)
        → tried bq retry entry o ≡ (some e, (v, found))
        → (d : Err) × (o ≡ (failed d, v))
          × (e ≡ retry.retryable_error (wrapped (codes "failed to get entry: ") d))
    tried-some entry (value x, w) h = absurd (cc)
    tried-some entry (failed d, w) h = (d, cc, cc)

    pub try_entry-OnlyRetryable : OnlyRetryable retry (try_entry bq retry q)
    unfolding try_entry
    try_entry-OnlyRetryable (w, entry) (v, found) e h =
        let (d, _, same) = tried-some _ (first_entry bq q w) h in (_, same)

    found_of_Runs :
        {context_error : Option Err} {n : ℕ} {w v : W} {entry found : Option BqEntry}
        {r : Option Err}
        → Runs (try_entry bq retry q) context_error n (w, entry) r (v, found)
        → r ≡ none
        → (x : BqEntry) × (found ≡ some x) × FoundWithin n w x v
    unfolding try_entry
    found_of_Runs {w = w} (done h) none_r =
        let (x, is_x, first) = tried-none _ (first_entry bq q w) h in (x, is_x, now first)
    found_of_Runs (spent h) none_r = absurd (cc)
    found_of_Runs {w = w} (again {t = (t, _)} h runs) none_r =
        let (x, is_x, rest) = found_of_Runs runs none_r in
        let (_, failure, _) = tried-some _ (first_entry bq q w) h in (x, is_x, later failure rest)
    found_of_Runs (ended h) none_r = absurd (cc)

    -- A run that is not cut short finds what is there to be found.
    Runs-FoundWithin :
        {n : ℕ} {w v u : W} {entry found : Option BqEntry} {x : BqEntry} {r : Option Err}
        → FoundWithin n w x v
        → Runs (try_entry bq retry q) none n (w, entry) r (u, found)
        → (r ≡ none) × (u ≡ v) × (found ≡ some x)
    unfolding try_entry
    Runs-FoundWithin {w = w} found (ended h) = absurd (cc)
    Runs-FoundWithin {w = w} (now first) (done h) =
        let (y, is_y, found_y) = tried-none _ (first_entry bq q w) h in (refl, cc, cc)
    Runs-FoundWithin {w = w} (now first) (spent h) =
        let (d, failure, _) = tried-some _ (first_entry bq q w) h in absurd (cc)
    Runs-FoundWithin {w = w} (now first) (again {t = (t, _)} h runs) =
        let (d, failure, _) = tried-some _ (first_entry bq q w) h in absurd (cc)
    Runs-FoundWithin {w = w} (later first rest) (done h) =
        let (y, is_y, found_y) = tried-none _ (first_entry bq q w) h in absurd (cc)
    Runs-FoundWithin {w = w} (later {v = s} first rest) (again {t = (t, _)} h runs) =
        let (d, failure, _) = tried-some _ (first_entry bq q w) h in
        let same : s ≡ t = cc in Runs-FoundWithin (rw same at rest) runs

    finished_found :
        {context_error : Option Err} {n : ℕ} {w v : W} {entry : Option BqEntry}
        (result : Option Err × (W × Option BqEntry))
        → Runs (try_entry bq retry q) context_error n (w, none) result.0 result.1
        → finished bq retry result ≡ (value entry, v)
        → (x : BqEntry) × (entry ≡ some x) × FoundWithin n w x v
    finished_found {n = n} {w = w} (none, (u, e)) runs h =
        let (x, is_x, found) = found_of_Runs runs refl in
        let same : u ≡ _ = ap (λ p. p.1) h in (x, cc, rw same at found)
    finished_found (some d, (u, e)) runs h = absurd (cc)

    found_finished :
        {n : ℕ} {w v : W} {x : BqEntry} (result : Option Err × (W × Option BqEntry))
        → Runs (try_entry bq retry q) none n (w, none) result.0 result.1
        → FoundWithin n w x v
        → finished bq retry result ≡ (value (some x), v)
    found_finished (none, (u, e)) runs found =
        let (_, same, is_x) = Runs-FoundWithin found runs in cc
    found_finished (some d, (u, e)) runs found =
        let (bad, _, _) = Runs-FoundWithin found runs in absurd (cc)

    module _ {context_error : Option Err} (laws : RetryLaws retry context_error) (n : ℕ) (d : ℤ)
        (b : Backoff) (constant : retry.new_constant d ≡ ok b) where
      -- With a constant backoff, an entry that `SingleBQEntry` returns is the one that the first attempt with an entry finds,
      -- after failed attempts only, with at most as many retries as the backoff allows. The pointer
      -- that it returns without an error is never nil.
      pub single_bq_entry-FoundWithin :
          (w v : W) (entry : Option BqEntry)
          → single_bq_entry bq retry q (retry.with_max_retries n b) w ≡ (value entry, v)
          → (x : BqEntry) × (entry ≡ some x) × FoundWithin n w x v
      unfolding single_bq_entry
      single_bq_entry-FoundWithin w v entry h =
          finished_found _ (laws.retry_do-Runs _ n d b (w, none) constant try_entry-OnlyRetryable) h

    module _ (laws : RetryLaws retry none) (n : ℕ) (d : ℤ) (b : Backoff)
        (constant : retry.new_constant d ≡ ok b) where
      -- With a constant backoff, in a context that does not end, an entry that is found by an attempt within the allowed
      -- retries is returned.
      pub single_bq_entry-eq :
          {w v : W} {x : BqEntry}
          → FoundWithin n w x v
          → single_bq_entry bq retry q (retry.with_max_retries n b) w ≡ (value (some x), v)
      unfolding single_bq_entry
      single_bq_entry-eq {w = w} found =
          found_finished _ (laws.retry_do-Runs _ n d b (w, none) constant try_entry-OnlyRetryable)
            found
