-- ===== src/Db/Metrics.antt =====
-- backend/app/db/repositories/metrics.py: the aggregates of the dashboard.
pub mod Groups
pub mod Ingested
pub mod Keys
pub mod Sums
use llm_inference_logger.Prelude.{
  ℕ, max, String, ◌<>◌, Bool, not, ◌&&◌, ◌||◌, Option, none, some, List, [], ◌∷◌, map, str_eq, ltb,
  leb, ◌==◌, if◌then◌else◌, length, keep, count, ℤ, pos, ◌+ℤ◌, nat_sub,
}
use llm_inference_logger.Prelude.Order.{order_by}
use llm_inference_logger.Prelude.Outcome.{Result, ok, err}
use llm_inference_logger.Core.Errors.{Exn, other}
use llm_inference_logger.Domain.Enums.{is_error, is_cancelled, is_pending, is_failed}
use llm_inference_logger.Db.Tables.{InferenceLog, RawEvent}

pub record TimeBucket : Type 0 where
  pub bucket : ℕ
  pub requests : ℕ
  pub errors : ℕ
  pub cancellations : ℕ
  pub p50_latency_ms : Option ℤ
  pub p95_latency_ms : Option ℤ
  pub p50_ttft_ms : Option ℤ

pub record ProviderBreakdown : Type 0 where
  pub provider : String
  pub model : String
  pub requests : ℕ
  pub errors : ℕ
  pub cancellations : ℕ
  pub p50_latency_ms : Option ℤ
  pub p95_latency_ms : Option ℤ
  pub p95_ttft_ms : Option ℤ
  pub input_tokens : ℤ
  pub output_tokens : ℤ

pub record Totals : Type 0 where
  pub requests : ℕ
  pub errors : ℕ
  pub cancellations : ℕ
  pub p50_latency_ms : Option ℤ
  pub p95_latency_ms : Option ℤ
  pub p95_ttft_ms : Option ℤ
  pub input_tokens : ℤ
  pub output_tokens : ℤ

pub record IngestionHealth : Type 0 where
  pub last_ingested_at : Option ℕ
  pub lag : Option ℤ
  pub logs_total : ℕ
  pub raw_events_total : ℕ
  pub raw_events_pending : ℕ
  pub raw_events_failed : ℕ

-- The values of a column, without its nulls, which every aggregate but COUNT(*) skips.
abbrev pub present : (InferenceLog → Option ℤ) → List InferenceLog → List ℤ
present column [] = []
present column (l ∷ ls) =
    let rest = present column ls in elim (column l) [ none ↦ rest | some z ↦ z ∷ rest ]

-- A null adds nothing to a sum.
abbrev pub value_or_zero : Option ℤ → ℤ
value_or_zero none = pos 0
value_or_zero (some z) = z

-- `coalesce(sum(column), 0)`
abbrev pub sum : (InferenceLog → Option ℤ) → List InferenceLog → ℤ
sum column [] = pos 0
sum column (l ∷ ls) = value_or_zero (column l) +ℤ sum column ls

-- Rows in the window: `since <= BUCKET_COLUMN`.
abbrev pub in_window : ℕ → List InferenceLog → List InferenceLog
in_window since logs = keep (λ l. leb since l.completed_at) logs

-- GROUP BY: the keys that occur, each once.
unfoldable pub distinct {ℓ} : {K : Type ℓ} → (K → K → Bool) → List K → List K
distinct same [] = []
distinct same (k ∷ ks) = k ∷ keep (λ j. not (same k j)) (distinct same ks)

-- The rows of the group of a key.
abbrev pub group {ℓ} :
    {K : Type ℓ} → (K → K → Bool) → (InferenceLog → K) → List InferenceLog → K → List InferenceLog
group same key logs k = keep (λ l. same k (key l)) logs

-- `_ALLOWED_INTERVALS`
abbrev pub allowed_interval : String → Bool
allowed_interval s = str_eq s "second" || str_eq s "minute" || str_eq s "hour" || str_eq s "day"

abbrev pub by_bucket : TimeBucket → TimeBucket → Bool
by_bucket a b = ltb a.bucket b.bucket

-- `func.count().desc()`
abbrev pub by_requests : ProviderBreakdown → ProviderBreakdown → Bool
by_requests a b = ltb b.requests a.requests

abbrev pub same_model : (String × String) → (String × String) → Bool
same_model j k = str_eq j.0 k.0 && str_eq j.1 k.1

-- `percentile_cont` is Postgres's, of a percentage and the values that are not null, with the cast
-- to an integer; `date_trunc` is Postgres's too, and `repr` is Python's, for the message of an error.
module _ (percentile_cont : ℕ → List ℤ → Option ℤ) (date_trunc : String → ℕ → ℕ)
    (repr : String → String) where
  -- `_percentile`
  abbrev pub percentile : ℕ → (InferenceLog → Option ℤ) → List InferenceLog → Option ℤ
  percentile percent column logs = percentile_cont percent (present column logs)

  -- The one row of the query of `totals`.
  abbrev pub totals_of : List InferenceLog → Totals
  totals_of rows = record {
    requests = length rows;
    errors = count (λ l. is_error l.status) rows;
    cancellations = count (λ l. is_cancelled l.status) rows;
    p50_latency_ms = percentile 50 (λ l. l.latency_ms) rows;
    p95_latency_ms = percentile 95 (λ l. l.latency_ms) rows;
    p95_ttft_ms = percentile 95 (λ l. l.ttft_ms) rows;
    input_tokens = sum (λ l. l.input_tokens) rows;
    output_tokens = sum (λ l. l.output_tokens) rows;
  }

  -- `MetricsRepository.totals`
  unfoldable pub totals : ℕ → List InferenceLog → Totals
  totals since logs = totals_of (in_window since logs)

  -- The row of a group of `time_series`.
  abbrev pub bucket_row : ℕ → List InferenceLog → TimeBucket
  bucket_row b rows = record {
    bucket = b;
    requests = length rows;
    errors = count (λ l. is_error l.status) rows;
    cancellations = count (λ l. is_cancelled l.status) rows;
    p50_latency_ms = percentile 50 (λ l. l.latency_ms) rows;
    p95_latency_ms = percentile 95 (λ l. l.latency_ms) rows;
    p50_ttft_ms = percentile 50 (λ l. l.ttft_ms) rows;
  }

  -- `func.date_trunc(interval, BUCKET_COLUMN)`
  abbrev pub bucket_of : String → InferenceLog → ℕ
  bucket_of interval l = date_trunc interval l.completed_at

  -- The rows of the query of `time_series`.
  abbrev pub series_of : String → List InferenceLog → List TimeBucket
  series_of interval rows = order_by by_bucket (
      map (λ b. bucket_row b (group (◌==◌) (bucket_of interval) rows b))
        (distinct (◌==◌) (map (bucket_of interval) rows)))

  -- `MetricsRepository.time_series`
  unfoldable pub time_series : ℕ → String → List InferenceLog → Result Exn (List TimeBucket)
  time_series since interval logs =
      if not (allowed_interval interval)
      then err (other "ValueError" ("unsupported interval: " <> repr interval))
      else ok (series_of interval (in_window since logs))

  -- The row of a group of `by_provider`.
  abbrev pub provider_row : (String × String) → List InferenceLog → ProviderBreakdown
  provider_row k rows = record {
    provider = k.0;
    model = k.1;
    requests = length rows;
    errors = count (λ l. is_error l.status) rows;
    cancellations = count (λ l. is_cancelled l.status) rows;
    p50_latency_ms = percentile 50 (λ l. l.latency_ms) rows;
    p95_latency_ms = percentile 95 (λ l. l.latency_ms) rows;
    p95_ttft_ms = percentile 95 (λ l. l.ttft_ms) rows;
    input_tokens = sum (λ l. l.input_tokens) rows;
    output_tokens = sum (λ l. l.output_tokens) rows;
  }

  abbrev pub model_of : InferenceLog → String × String
  model_of l = (l.provider, l.model)

  -- The rows of the query of `by_provider`.
  abbrev pub breakdown_of : List InferenceLog → List ProviderBreakdown
  breakdown_of rows = order_by by_requests (
      map (λ k. provider_row k (group same_model model_of rows k))
        (distinct same_model (map model_of rows)))

  -- `MetricsRepository.by_provider`
  unfoldable pub by_provider : ℕ → List InferenceLog → List ProviderBreakdown
  by_provider since logs = breakdown_of (in_window since logs)

-- `max(ingested_at)`, null where there is no row.
abbrev pub last_ingested : List InferenceLog → Option ℕ
last_ingested [] = none
last_ingested (l ∷ ls) = elim (last_ingested ls) [
  | none ↦ some l.ingested_at
  | some t ↦ some (max l.ingested_at t)
]

-- `MetricsRepository.ingestion_health`; `now` is the clock of the database.
unfoldable pub ingestion_health :
    {P : Type 0} → ℕ → List InferenceLog → List (RawEvent P) → IngestionHealth
ingestion_health now logs raws =
    let latest = last_ingested logs in
    record {
      last_ingested_at = latest;
      lag = elim latest [ none ↦ none | some t ↦ some (nat_sub now t) ];
      logs_total = length logs;
      raw_events_total = length raws;
      raw_events_pending = count (λ r. is_pending r.processing_status) raws;
      raw_events_failed = count (λ r. is_failed r.processing_status) raws;
    }
