-- ===== src/Api/Summary/Tests.antt =====
-- A summary of four calls.
use llm_inference_logger.Prelude.{
  ℕ, ◌*◌, ◌/◌, String, ◌<>◌, ◌≡◌, refl, Option, none, some, List, [], ◌∷◌, map, ℤ, pos,
}
use llm_inference_logger.Prelude.Order.{order_by, insert_sorted}
use llm_inference_logger.Prelude.Outcome.{Result, ok, err}
use llm_inference_logger.Db.Tables.{Db, empty_db}
use llm_inference_logger.Db.Metrics.{
  TimeBucket, totals, time_series, by_provider, distinct, ProviderBreakdown,
}
use llm_inference_logger.Db.Metrics.Ingested.{aggregates-ignore_ingested, rewritten}
use llm_inference_logger.Api.Logs.Tests.{calls}
use llm_inference_logger.Api.Summary.{summary, MetricsSummary, Interval}
use llm_inference_logger.Api.Summary.Laws.{summary-IsConsistent, IsConsistent}
use llm_inference_logger.Core.Errors.{Exn}

-- A percentile that is the first value, buckets of ten microseconds, and rates in ten-thousandths.
abbrev first : ℕ → List ℤ → Option ℤ
first percent [] = none
first percent (z ∷ zs) = some z

abbrev tens : String → ℕ → ℕ
tens interval t = 10 * (t / 10)

abbrev quoted : String → String
quoted s = "'" <> s <> "'"

abbrev rate : ℕ → ℕ → ℕ
rate n m = 10000 * n / m

abbrev db : Db ℕ
db = record (empty_db ℕ) { inference_logs = calls }

abbrev bucket_counts : Result Exn (List TimeBucket) → List (ℕ × ℕ × ℕ)
bucket_counts (ok bs) = map (λ b. (b.bucket, b.requests, b.errors)) bs
bucket_counts (err e) = []

abbrev minutes : List (ℕ × ℕ × ℕ)
minutes = (20, 3, 1) ∷ (30, 1, 1) ∷ []

buckets : bucket_counts (time_series first tens quoted 0 "minute" calls) ≡ minutes
unfolding time_series order_by insert_sorted distinct
buckets = refl

abbrev provider_counts : List ProviderBreakdown → List (String × ℕ × ℤ)
provider_counts ps = map (λ p. (p.provider, p.requests, p.output_tokens)) ps

abbrev shares : List (String × ℕ × ℤ)
shares = ("mock", 3, pos 15) ∷ ("openai", 1, pos 5) ∷ []

providers : provider_counts (by_provider first tens quoted 0 calls) ≡ shares
unfolding by_provider order_by insert_sorted distinct
providers = refl

summary-IsConsistent_example :
    (s : MetricsSummary ℕ) × (summary rate 0 (λ r. r) first tens quoted 500 900 60 Interval.hour db
      ≡ ok s)
    × IsConsistent 900 db s
summary-IsConsistent_example =
    summary-IsConsistent rate 0 (λ r. r) first tens quoted 500 900 60 Interval.hour db

aggregates-ignore_ingested_example :
    (totals first tens quoted 7 (map (rewritten (λ l. l.id * 3)) calls)
      ≡ totals first tens quoted 7 calls)
    × (time_series first tens quoted 7 "day" (map (rewritten (λ l. l.id * 3)) calls)
        ≡ time_series first tens quoted 7 "day" calls)
    × (by_provider first tens quoted 7 (map (rewritten (λ l. l.id * 3)) calls)
        ≡ by_provider first tens quoted 7 calls)
aggregates-ignore_ingested_example =
    aggregates-ignore_ingested (λ l. l.id * 3) first tens quoted 7 "day" calls
