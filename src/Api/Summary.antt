-- ===== src/Api/Summary.antt =====
-- backend/app/api/metrics.py: the answer to `GET /metrics/summary`.
pub mod Laws
pub mod Tests
use llm_inference_logger.Prelude.{
  ℕ, ◌-◌, ◌*◌, String, Bool, false, Option, none, some, List, map, ◌==◌, if◌then◌else◌, ℤ, above,
}
use llm_inference_logger.Prelude.Outcome.{Result, ok, err, bind}
use llm_inference_logger.Core.Errors.{Exn}
use llm_inference_logger.Db.Tables.{Db}
use llm_inference_logger.Db.Metrics.{
  Totals, TimeBucket, ProviderBreakdown, IngestionHealth, totals, time_series, by_provider,
  ingestion_health,
}

pub record TimeBucketOut : Type 0 where
  pub bucket : ℕ
  pub requests : ℕ
  pub errors : ℕ
  pub cancellations : ℕ
  pub p50_latency_ms : Option ℤ
  pub p95_latency_ms : Option ℤ
  pub p50_ttft_ms : Option ℤ

pub record ProviderBreakdownOut : Type 0 where
  pub provider : String
  pub model : String
  pub requests : ℕ
  pub errors : ℕ
  pub cancellations : ℕ
  pub p50_latency_ms : Option ℤ
  pub p95_latency_ms : Option ℤ
  pub p95_ttft_ms : Option ℤ
  pub input_tokens : ℤ
  pub output_tokens : ℤ

-- `error_rate` is a float with four decimals.
pub record TotalsOut (Rate : Type 0) : Type 0 where
  pub requests : ℕ
  pub errors : ℕ
  pub cancellations : ℕ
  pub error_rate : Rate
  pub p50_latency_ms : Option ℤ
  pub p95_latency_ms : Option ℤ
  pub p95_ttft_ms : Option ℤ
  pub input_tokens : ℤ
  pub output_tokens : ℤ

pub record IngestionHealthOut : Type 0 where
  pub last_ingested_at : Option ℕ
  pub lag : Option ℤ
  pub logs_total : ℕ
  pub raw_events_total : ℕ
  pub raw_events_pending : ℕ
  pub raw_events_failed : ℕ
  pub is_stalled : Bool

pub record MetricsSummary (Rate : Type 0) : Type 0 where
  pub window_minutes : ℕ
  pub interval : String
  pub totals : TotalsOut Rate
  pub series : List TimeBucketOut
  pub providers : List ProviderBreakdownOut
  pub ingestion : IngestionHealthOut

-- `TimeBucketOut(**asdict(bucket))`
abbrev pub time_bucket_out : TimeBucket → TimeBucketOut
time_bucket_out b = record {
  bucket = b.bucket;
  requests = b.requests;
  errors = b.errors;
  cancellations = b.cancellations;
  p50_latency_ms = b.p50_latency_ms;
  p95_latency_ms = b.p95_latency_ms;
  p50_ttft_ms = b.p50_ttft_ms;
}

-- `ProviderBreakdownOut(**asdict(row))`
abbrev pub provider_breakdown_out : ProviderBreakdown → ProviderBreakdownOut
provider_breakdown_out p = record {
  provider = p.provider;
  model = p.model;
  requests = p.requests;
  errors = p.errors;
  cancellations = p.cancellations;
  p50_latency_ms = p.p50_latency_ms;
  p95_latency_ms = p.p95_latency_ms;
  p95_ttft_ms = p.p95_ttft_ms;
  input_tokens = p.input_tokens;
  output_tokens = p.output_tokens;
}

-- The endpoint's `Literal` of intervals.
pub data Interval : Type 0 where
  minute hour day : Interval

abbrev pub interval_text : Interval → String
interval_text Interval.minute = "minute"
interval_text Interval.hour = "hour"
interval_text Interval.day = "day"

-- In microseconds: a second, a minute, and `STALLED_AFTER_SECONDS`.
abbrev pub second : ℕ
second = 1000000

abbrev pub minute_length : ℕ
minute_length = 60 * second

abbrev pub stalled_after : ℕ
stalled_after = 120 * second

-- `ingestion.lag_seconds is not None and ingestion.lag_seconds > STALLED_AFTER_SECONDS`
abbrev pub is_stalled : Option ℤ → Bool
is_stalled none = false
is_stalled (some lag) = above stalled_after lag

abbrev pub ingestion_health_out : IngestionHealth → IngestionHealthOut
ingestion_health_out h = record {
  last_ingested_at = h.last_ingested_at;
  lag = h.lag;
  logs_total = h.logs_total;
  raw_events_total = h.raw_events_total;
  raw_events_pending = h.raw_events_pending;
  raw_events_failed = h.raw_events_failed;
  is_stalled = is_stalled h.lag;
}

-- `divide` is Python's division of integers and `round4` its `round(_, 4)`; the other parameters
-- are those of the queries.
module _ {Rate : Type 0} (divide : ℕ → ℕ → Rate) (zero_rate : Rate) (round4 : Rate → Rate)
    (percentile_cont : ℕ → List ℤ → Option ℤ) (date_trunc : String → ℕ → ℕ)
    (repr : String → String) where
  -- `Totals.error_rate`
  abbrev pub error_rate : Totals → Rate
  error_rate t = if t.requests == 0 then zero_rate else divide t.errors t.requests

  abbrev pub totals_out : Totals → TotalsOut Rate
  totals_out t = record {
    requests = t.requests;
    errors = t.errors;
    cancellations = t.cancellations;
    error_rate = round4 (error_rate t);
    p50_latency_ms = t.p50_latency_ms;
    p95_latency_ms = t.p95_latency_ms;
    p95_ttft_ms = t.p95_ttft_ms;
    input_tokens = t.input_tokens;
    output_tokens = t.output_tokens;
  }

  -- `summary`: `now` is the clock of the API, `db_now` that of the database.
  unfoldable pub summary :
      {P : Type 0} → ℕ → ℕ → ℕ → Interval → Db P → Result Exn (MetricsSummary Rate)
  summary now db_now window_minutes interval db =
      let since = now - window_minutes * minute_length in
      let all = totals percentile_cont date_trunc repr since db.inference_logs in
      let providers = by_provider percentile_cont date_trunc repr since db.inference_logs in
      let health = ingestion_health db_now db.inference_logs db.raw_events in
      bind
        (time_series percentile_cont date_trunc repr since (interval_text interval)
          db.inference_logs)
        (λ series. ok (record {
          window_minutes = window_minutes;
          interval = interval_text interval;
          totals = totals_out all;
          series = map time_bucket_out series;
          providers = map provider_breakdown_out providers;
          ingestion = ingestion_health_out health;
        }))
