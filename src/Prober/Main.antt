-- ===== src/Prober/Main.antt =====
-- `realMain` and `main` of prober/main.go. Logging and the signals are left out.
pub mod Success
use pmap.Base.{ℕ, Option, none, some, [], ◌∷◌, ◌++◌, Bytes, codes}
use pmap.Errors.{Err, Result, ok, err, panicked, wrapped, join, message}
use pmap.Errors.Fallible.{Fallible}
use pmap.Errors.Act.{Act, lift, call, or_wrap, ◌>>=◌}
use pmap.Go.Fmt.{decimal}
use pmap.Api.Messages.{Structs}
use pmap.Testhelper.{BigQuery, Retry, Upload}
use pmap.Prober.Config.{Config, Values, new_test_config, or_nil}
use pmap.Prober.Probe.{probe_mapping, probe_policy}

-- `storage.NewClient`, `bigquery.NewClient` for a project, their `Close`, whose error is dropped, and
-- `time.Now().Unix()`.
pub record Clients (W Job Rows Writer : Type 0) : Type 0 where
  pub new_gcs : W → Fallible (Upload W Writer) × W
  pub new_bq : Bytes → W → Fallible (BigQuery W Job Rows) × W
  pub close_gcs : W → W
  pub close_bq : W → W
  pub unix_time : W → ℕ

abbrev pub and_close : {W A : Type 0} → (W → W) → Result A × W → Result A × W
and_close close (r, w) = (r, close w)

-- `defer c.Close()` in front of the rest of a function
abbrev pub deferred : {W A : Type 0} → (W → W) → Act W A → Act W A
deferred close m w = and_close close (m w)

-- `if err := …; err != nil { probeErr = errors.Join(probeErr, fmt.Errorf("text%w", err)) }`
abbrev join_probe : Bytes → Option Err → Result (Unit {0}) → Result (Option Err)
join_probe text e (ok _) = ok e
join_probe text e (err d) = ok (join e (some (wrapped text d)))
join_probe text e panicked = panicked

abbrev pub noted :
    {W : Type 0} → Bytes → Option Err → Result (Unit {0}) × W → Result (Option Err) × W
noted text e (r, w) = (join_probe text e r, w)

-- A probe whose error is noted, and does not stop what follows.
abbrev pub note : {W : Type 0} → Bytes → Option Err → Act W (Unit {0}) → Act W (Option Err)
note text e probe w = noted text e (probe w)

abbrev pub no_config : Bytes
no_config = codes "failed to parse integration test config: "

abbrev pub no_gcs : Bytes
no_gcs = codes "failed to create gcs client: "

abbrev pub no_bq : Bytes
no_bq = codes "failed to create bigquery client: "

abbrev pub mapping_failed : Bytes
mapping_failed = codes "prober failed for mapping service: "

abbrev pub policy_failed : Bytes
policy_failed = codes "prober failed for policy service: "

-- The exit status, and what is written to standard error.
abbrev pub exit_with : {W : Type 0} → Result (Unit {0}) × W → Result (ℕ × Bytes) × W
exit_with (ok _, w) = (ok (0, []), w)
exit_with (err e, w) = (ok (1, message e ++ b'\n' ∷ []), w)
exit_with (panicked, w) = (panicked, w)

module _ {W Job Rows Writer Backoff S V Value Any Time : Type 0} (structs : Structs S Value)
    (values : Values S V Any Time) (retry : Retry Backoff) where
  -- The two probes, one after the other.
  unfoldable pub probe_both :
      Upload W Writer → BigQuery W Job Rows → Config → Bytes → Act W (Unit {0})
  unfolding join
  probe_both gcs bq cfg ts = do
    e1 ← note mapping_failed none (probe_mapping structs values retry gcs bq cfg ts)
    e2 ← note policy_failed e1 (probe_policy structs values retry gcs bq cfg ts)
    λ w. (or_nil e2, w)

  module _ (clients : Clients W Job Rows Writer) (processed : Fallible Config) where
    -- `realMain`
    unfoldable pub real_main : Act W (Unit {0})
    real_main = do
      cfg ← or_wrap (lift (new_test_config processed)) no_config
      gcs ← or_wrap (call clients.new_gcs) no_gcs
      deferred clients.close_gcs (do
        bq ← or_wrap (call (clients.new_bq cfg.project_id)) no_bq
        deferred clients.close_bq (λ w. probe_both gcs bq cfg (decimal (clients.unix_time w)) w))

    -- `main`
    unfoldable pub main : Act W (ℕ × Bytes)
    unfolding message
    main w = exit_with (real_main w)
