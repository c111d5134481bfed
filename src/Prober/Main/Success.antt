-- ===== src/Prober/Main/Success.antt =====
-- When `main` of prober/main.go exits with status 0.
use pmap.Base.{◌≡◌, ◌↔◌, refl, ap, ◌∙◌, sym, Option, none, some, [], Bytes}
use pmap.Errors.{Err, Result, ok, err, panicked, join}
use pmap.Errors.Fallible.{Fallible, value, or_wrap-eq-value}
use pmap.Errors.Act.{
  wrap_result, call_result, to_result, proceed-eq-ok, wrap_result-eq-ok, call_result-eq-ok,
  to_result-eq-ok,
}
use pmap.Go.Fmt.{decimal}
use pmap.Api.Messages.{Structs}
use pmap.Testhelper.{BigQuery, Retry, Upload}
use pmap.Prober.Config.{Config, Values, new_test_config}
use pmap.Prober.Probe.{probe_mapping, probe_policy}
use pmap.Prober.Probe.Chain.{or_nil-ok}
use pmap.Prober.Main.{
  Clients, and_close, noted, note, no_config, no_gcs, no_bq, mapping_failed, policy_failed,
  probe_both, real_main, exit_with, main,
}

module _ {W : Type 0} where
  and_close-eq-ok :
      {A : Type 0} (close : W → W) (r : Result A × W) {a : A} {v : W}
      → and_close close r ≡ (ok a, v)
      → (u : W) × (r ≡ (ok a, u)) × (close u ≡ v)
  and_close-eq-ok close (ok b, w) h = (w, cc, cc)
  and_close-eq-ok close (err e, w) h = absurd (cc)
  and_close-eq-ok close (panicked, w) h = absurd (cc)

  noted-none :
      (text : Bytes) (e : Option Err) (r : Result (Unit {0}) × W) {v : W}
      → noted text e r ≡ (ok none, v)
      → (e ≡ none) × (r ≡ (ok tt, v))
  unfolding join
  noted-none text e (ok _, w) h = (cc, cc)
  noted-none text none (err d, w) h = absurd (cc)
  noted-none text (some c) (err d, w) h = absurd (cc)
  noted-none text e (panicked, w) h = absurd (cc)

  exit_with-success_iff :
      (r : Result (Unit {0}) × W) {v : W} → (exit_with r ≡ (ok (0, []), v)) ↔ (r ≡ (ok tt, v))
  exit_with-success_iff (ok _, w) = (λ h. cc, λ h. cc)
  exit_with-success_iff (err e, w) = (λ h. absurd (cc), λ h. absurd (cc))
  exit_with-success_iff (panicked, w) = (λ h. absurd (cc), λ h. absurd (cc))

module _ {W Job Rows Writer Backoff S V Value Any Time : Type 0} (structs : Structs S Value)
    (values : Values S V Any Time) (retry : Retry Backoff) where
  abbrev pub BothPass : Upload W Writer → BigQuery W Job Rows → Config → Bytes → W → W → Type 0
  BothPass gcs bq cfg ts w v =
      (u : W) × (probe_mapping structs values retry gcs bq cfg ts w ≡ (ok tt, u))
      × (probe_policy structs values retry gcs bq cfg ts u ≡ (ok tt, v))

  probe_both-BothPass :
      (gcs : Upload W Writer) (bq : BigQuery W Job Rows) (cfg : Config) (ts : Bytes) (w v : W)
      → probe_both structs values retry gcs bq cfg ts w ≡ (ok tt, v)
      → BothPass gcs bq cfg ts w v
  unfolding probe_both
  probe_both-BothPass gcs bq cfg ts w v h =
      let (e1, u, first, rest) =
        proceed-eq-ok _
          (note mapping_failed none (probe_mapping structs values retry gcs bq cfg ts) w) h in
      let (e2, s, second, last) =
        proceed-eq-ok _ (note policy_failed e1 (probe_policy structs values retry gcs bq cfg ts) u)
          rest in
      let clean : e2 ≡ none = or_nil-ok e2 (ap (λ p. p.0) last) in
      let end : s ≡ v = ap (λ p. p.1) last in
      let (none_e1, policy) = noted-none policy_failed e1 _ (rw (clean, end) at second) in
      let (_, mapping) = noted-none mapping_failed none _ (rw none_e1 at first) in
      (u, mapping, policy)

  probe_both-eq :
      (gcs : Upload W Writer) (bq : BigQuery W Job Rows) (cfg : Config) (ts : Bytes) (w v : W)
      → BothPass gcs bq cfg ts w v
      → probe_both structs values retry gcs bq cfg ts w ≡ (ok tt, v)
  unfolding probe_both
  probe_both-eq gcs bq cfg ts w v (u, mapping, policy) = rw (mapping, policy) refl

  module _ (clients : Clients W Job Rows Writer) (processed : Fallible Config) (w v : W) where
    -- The configuration is there, both clients are made, both probes pass, the second after the
    -- first, and both clients are closed, the second one first.
    abbrev pub Succeeds : Type 0
    Succeeds =
        (cfg : Config) × (processed ≡ value cfg)
        × (gcs : Upload W Writer) × (w1 : W) × (clients.new_gcs w ≡ (value gcs, w1))
        × (bq : BigQuery W Job Rows) × (w2 : W) × (clients.new_bq cfg.project_id w1
            ≡ (value bq, w2))
        × (w3 : W) × BothPass gcs bq cfg (decimal (clients.unix_time w2)) w2 w3
        × (v ≡ clients.close_gcs (clients.close_bq w3))

    real_main-Succeeds : real_main structs values retry clients processed w ≡ (ok tt, v) → Succeeds
    unfolding real_main new_test_config
    real_main-Succeeds h =
        let (cfg, w0, c, r1) =
          proceed-eq-ok _ (wrap_result no_config (to_result (new_test_config processed), w)) h in
        let (gcs, w1, m1, r2) =
          proceed-eq-ok _ (wrap_result no_gcs (call_result (clients.new_gcs w0))) r1 in
        let (s, inner, close1) = and_close-eq-ok clients.close_gcs _ r2 in
        let (bq, w2, m2, r3) =
          proceed-eq-ok _ (wrap_result no_bq (call_result (clients.new_bq cfg.project_id w1)))
            inner in
        let (w3, both, close2) = and_close-eq-ok clients.close_bq _ r3 in
        let (got, same) =
          to_result-eq-ok (new_test_config processed) (wrap_result-eq-ok no_config _ c) in
        let made = call_result-eq-ok (clients.new_gcs w0) (wrap_result-eq-ok no_gcs _ m1) in
        let made2 = call_result-eq-ok (clients.new_bq _ w1) (wrap_result-eq-ok no_bq _ m2) in
        (
          cfg,
          or_wrap-eq-value processed _ got,
          gcs,
          w1,
          rw (sym same) at made,
          bq,
          w2,
          made2,
          w3,
          probe_both-BothPass gcs bq cfg _ w2 w3 both,
          sym (ap clients.close_gcs close2 ∙ close1),
        )

    real_main-eq : Succeeds → real_main structs values retry clients processed w ≡ (ok tt, v)
    unfolding real_main new_test_config
    real_main-eq (cfg, got, gcs, w1, made, bq, w2, made2, w3, both, end) =
        rw (got, made, made2, probe_both-eq gcs bq cfg _ w2 w3 both, end) refl

    -- The prober exits with status 0, and writes nothing to standard error, exactly if the
    -- configuration is there, both clients are made and both probes pass, one after the other; both
    -- clients are closed by then, the second one first.
    pub main-success_iff :
        (main structs values retry clients processed w ≡ (ok (0, []), v)) ↔ Succeeds
    unfolding main
    main-success_iff =
        let (to, from) =
          exit_with-success_iff (real_main structs values retry clients processed w) in
        (λ h. real_main-Succeeds (to h), λ s. from (real_main-eq s))
