-- ===== src/Api/Summary/Laws.antt =====
-- What a summary says of the rows it was computed from.
use llm_inference_logger.Prelude.{
  ℕ, ◌+◌, ◌-◌, ◌*◌, ◌≤◌, ◌<◌, max, String, ◌≡◌, refl, sym, ap, ◌∙◌, ◌↔◌, inl, inr, true, Option,
  none, some, List, [], ◌∷◌, map, arith, ltb, Bool-cases, length, All, ℤ, pos, above, ◌+ℤ◌, nat_sub,
}
use llm_inference_logger.Prelude.Outcome.{ok, bind}
use llm_inference_logger.Db.Tables.{Db, InferenceLog, RawEvent}
use llm_inference_logger.Db.Metrics.{
  last_ingested, ingestion_health, totals, by_provider, allowed_interval,
}
use llm_inference_logger.Db.Metrics.Groups.{total, total-map}
use llm_inference_logger.Db.Metrics.Sums.{time_series-adds_up, by_provider-adds_up}
use llm_inference_logger.Api.Summary.{
  summary, MetricsSummary, time_bucket_out, provider_breakdown_out, Interval, interval_text,
  stalled_after, minute_length, is_stalled, totals_out, ingestion_health_out,
}

-- The time of the last write is later than that of no row, and it is the time of one.
latest :
    (d now : ℕ) (l : InferenceLog) (ls : List InferenceLog)
    → (t : ℕ) × (last_ingested (l ∷ ls) ≡ some t)
      × ((t + d < now) ↔ All (λ k. k.ingested_at + d < now) (l ∷ ls))
latest d now l [] = (l.ingested_at, refl, ((λ h. (h, tt)), λ h. h.0))
latest d now l (k ∷ ls) =
    let (t, e, iff) = latest d now k ls in
    (
      max l.ingested_at t,
      rw e refl,
      ((λ h. (omega arith, iff.0 (omega arith))), λ h. omega (arith, h.0, iff.1 h.1)),
    )

-- A row was once written, and none within the limit.
abbrev pub NothingRecent : ℕ → List InferenceLog → Type 0
NothingRecent now logs = (1 ≤ length logs) × All (λ l. l.ingested_at + stalled_after < now) logs

above-nat_sub : (d m n : ℕ) → (above d (nat_sub m n) ≡ true) ↔ (n + d < m)
above-nat_sub d m n = elim (Bool-cases (ltb m n)) [
  | inl e ↦ simp e ((λ h. absurd (ground (arith, h))), λ h. absurd (ground (arith, h, e)))
  | inr e ↦ simp e ((λ h. ground (arith, h, e)), λ h. ground (arith, h, e))
]

is_stalled_iff :
    {P : Type 0} (now : ℕ) (logs : List InferenceLog) (raws : List (RawEvent P))
    → (is_stalled (ingestion_health now logs raws).lag ≡ true) ↔ NothingRecent now logs
unfolding ingestion_health
is_stalled_iff now [] raws = ((λ h. absurd (ground (arith, h))), λ h. absurd (omega (arith, h.0)))
is_stalled_iff now (l ∷ ls) raws =
    let (t, e, iff) = latest stalled_after now l ls in
    let lag : (is_stalled (ingestion_health now (l ∷ ls) raws).lag)
        ≡ above stalled_after (nat_sub now t) =
      ap (λ o. is_stalled (elim o [ none ↦ none | some u ↦ some (nat_sub now u) ])) e in
    (
      (λ h. (omega arith, iff.0 ((above-nat_sub stalled_after now t).0 (sym lag ∙ h)))),
      λ h. lag ∙ (above-nat_sub stalled_after now t).1 (iff.1 h.1),
    )

-- A summary is consistent with itself and with the rows.
pub record IsConsistent {Rate P : Type 0} (db_now : ℕ) (db : Db P) (s : MetricsSummary Rate)
    : Type 0 where
  pub series_requests : total (◌+◌) 0 (λ b. b.requests) s.series ≡ s.totals.requests
  pub series_errors : total (◌+◌) 0 (λ b. b.errors) s.series ≡ s.totals.errors
  pub series_cancellations : total (◌+◌) 0 (λ b. b.cancellations) s.series ≡ s.totals.cancellations
  pub provider_requests : total (◌+◌) 0 (λ p. p.requests) s.providers ≡ s.totals.requests
  pub provider_errors : total (◌+◌) 0 (λ p. p.errors) s.providers ≡ s.totals.errors
  pub provider_cancellations :
      total (◌+◌) 0 (λ p. p.cancellations) s.providers ≡ s.totals.cancellations
  pub provider_input :
      total (◌+ℤ◌) (pos 0) (λ p. p.input_tokens) s.providers ≡ s.totals.input_tokens
  pub provider_output :
      total (◌+ℤ◌) (pos 0) (λ p. p.output_tokens) s.providers ≡ s.totals.output_tokens
  pub stalled : (s.ingestion.is_stalled ≡ true) ↔ NothingRecent db_now db.inference_logs

allowed-interval_text : (i : Interval) → allowed_interval (interval_text i) ≡ true
allowed-interval_text Interval.minute = refl
allowed-interval_text Interval.hour = refl
allowed-interval_text Interval.day = refl

module _ {Rate : Type 0} (divide : ℕ → ℕ → Rate) (zero_rate : Rate) (round4 : Rate → Rate)
    (percentile_cont : ℕ → List ℤ → Option ℤ) (date_trunc : String → ℕ → ℕ)
    (repr : String → String) where
  -- A summary is answered for every window and each of the three intervals. Its series and its
  -- breakdown by provider add up to its totals, and it says that ingestion is stalled exactly when
  -- a row was once written and none within the last two minutes of the database's clock.
  pub summary-IsConsistent :
      {P : Type 0} (now db_now window_minutes : ℕ) (interval : Interval) (db : Db P)
      → (s : MetricsSummary Rate) × (summary divide zero_rate round4 percentile_cont date_trunc repr
            now db_now window_minutes interval db
          ≡ ok s)
        × IsConsistent db_now db s
  unfolding summary
  summary-IsConsistent now db_now window_minutes interval db =
      let since = now - window_minutes * minute_length in
      let logs = db.inference_logs in
      let (series, e, adds) =
        (time_series-adds_up percentile_cont date_trunc repr since (interval_text interval) logs).0
          (allowed-interval_text interval) in
      let shares = by_provider-adds_up percentile_cont date_trunc repr since logs in
      let rows = by_provider percentile_cont date_trunc repr since logs in
      let all = totals percentile_cont date_trunc repr since logs in
      let s : MetricsSummary Rate = record {
        window_minutes = window_minutes;
        interval = interval_text interval;
        totals = totals_out divide zero_rate round4 percentile_cont date_trunc repr all;
        series = map time_bucket_out series;
        providers = map provider_breakdown_out rows;
        ingestion = ingestion_health_out (ingestion_health db_now logs db.raw_events);
      } in
      (
        s,
        ap (λ r. bind r (λ bs. ok (record s { series = map time_bucket_out bs }))) e,
        record {
          series_requests =
              total-map (◌+◌) 0 (λ b. b.requests) time_bucket_out series ∙ adds.requests;
          series_errors = total-map (◌+◌) 0 (λ b. b.errors) time_bucket_out series ∙ adds.errors;
          series_cancellations =
              total-map (◌+◌) 0 (λ b. b.cancellations) time_bucket_out series ∙ adds.cancellations;
          provider_requests =
              total-map (◌+◌) 0 (λ p. p.requests) provider_breakdown_out rows ∙ shares.requests;
          provider_errors =
              total-map (◌+◌) 0 (λ p. p.errors) provider_breakdown_out rows ∙ shares.errors;
          provider_cancellations =
              total-map (◌+◌) 0 (λ p. p.cancellations) provider_breakdown_out rows
              ∙ shares.cancellations;
          provider_input =
              total-map (◌+ℤ◌) (pos 0) (λ p. p.input_tokens) provider_breakdown_out rows
              ∙ shares.input_tokens;
          provider_output =
              total-map (◌+ℤ◌) (pos 0) (λ p. p.output_tokens) provider_breakdown_out rows
              ∙ shares.output_tokens;
          stalled = is_stalled_iff db_now logs db.raw_events;
        },
      )
