-- ===== src/Db/Metrics/Ingested.antt =====
-- The aggregates of a window do not depend on when its rows were written.
use llm_inference_logger.Prelude.{
  ℕ, ◌+◌, String, ◌<>◌, ◌≡◌, refl, ap, ◌∙◌, fun_ext, inl, inr, Bool, not, Option, none, some, List,
  [], ◌∷◌, map, leb, ◌==◌, if◌then◌else◌, Bool-cases, keep, count, ℤ, length-map, ◌+ℤ◌,
}
use llm_inference_logger.Prelude.Order.{order_by}
use llm_inference_logger.Prelude.Outcome.{ok, err}
use llm_inference_logger.Core.Errors.{other}
use llm_inference_logger.Domain.Enums.{is_error, is_cancelled}
use llm_inference_logger.Db.Tables.{InferenceLog}
use llm_inference_logger.Db.Metrics.{
  distinct, group, sum, present, value_or_zero, in_window, totals, totals_of, series_of,
  breakdown_of, time_series, by_bucket, bucket_row, bucket_of, by_provider, by_requests,
  provider_row, model_of, same_model, allowed_interval,
}

-- Rows as if they had been written at other times.
module _ (at : InferenceLog → ℕ) where
  abbrev pub rewritten : InferenceLog → InferenceLog
  rewritten l = record l { ingested_at = at l }

  -- A test, a count, a column, a sum and a key that do not look at the time.
  module _ (p : InferenceLog → Bool) (same : (l : InferenceLog) → p (rewritten l) ≡ p l) where
    keep-rewritten :
        (ls : List InferenceLog) → keep p (map rewritten ls) ≡ map rewritten (keep p ls)
    keep-rewritten [] = refl
    keep-rewritten (l ∷ ls) =
        ap (λ b. if b then rewritten l ∷ keep p (map rewritten ls) else keep p (map rewritten ls))
          (same l)
        ∙ elim (Bool-cases (p l)) [
          | inl e ↦ simp e (ap (◌∷◌ (rewritten l)) (keep-rewritten ls))
          | inr e ↦ simp e (keep-rewritten ls)
        ]

    count-rewritten : (ls : List InferenceLog) → count p (map rewritten ls) ≡ count p ls
    count-rewritten [] = refl
    count-rewritten (l ∷ ls) =
        ap (λ b. (if b then 1 else 0) + count p (map rewritten ls)) (same l)
        ∙ ap (λ n. (if p l then 1 else 0) + n) (count-rewritten ls)

  module _ (column : InferenceLog → Option ℤ)
      (same : (l : InferenceLog) → column (rewritten l) ≡ column l) where
    present-rewritten :
        (ls : List InferenceLog) → present column (map rewritten ls) ≡ present column ls
    present-rewritten [] = refl
    present-rewritten (l ∷ ls) =
        ap
          (λ o. elim o [
            | none ↦ present column (map rewritten ls)
            | some z ↦ z ∷ present column (map rewritten ls)
          ])
          (same l)
        ∙ ap (λ rest. elim (column l) [ none ↦ rest | some z ↦ z ∷ rest ]) (present-rewritten ls)

    sum-rewritten : (ls : List InferenceLog) → sum column (map rewritten ls) ≡ sum column ls
    sum-rewritten [] = refl
    sum-rewritten (l ∷ ls) =
        ap (λ o. value_or_zero o +ℤ sum column (map rewritten ls)) (same l)
        ∙ ap (λ n. value_or_zero (column l) +ℤ n) (sum-rewritten ls)

  keys-rewritten :
      {K : Type 0} (key : InferenceLog → K)
      → ((l : InferenceLog) → key (rewritten l) ≡ key l)
      → (ls : List InferenceLog) → map key (map rewritten ls) ≡ map key ls
  keys-rewritten key same [] = refl
  keys-rewritten key same (l ∷ ls) =
      ap (λ k. k ∷ map key (map rewritten ls)) (same l)
      ∙ ap (λ ks. key l ∷ ks) (keys-rewritten key same ls)

  -- The rows of a query, where the row of a group does not look at the time.
  groups-rewritten :
      {K R : Type 0} (same : K → K → Bool) (key : InferenceLog → K)
      → ((l : InferenceLog) → key (rewritten l) ≡ key l)
      → (row : K → List InferenceLog → R)
      → ((k : K) (ls : List InferenceLog) → row k (map rewritten ls) ≡ row k ls)
      → (rows : List InferenceLog)
      → map
          (λ k. row k (group same key (map rewritten rows) k))
          (distinct same (map key (map rewritten rows)))
        ≡ map (λ k. row k (group same key rows k)) (distinct same (map key rows))
  groups-rewritten same key agrees row blind rows =
      ap (λ ks. map (λ k. row k (group same key (map rewritten rows) k)) (distinct same ks))
        (keys-rewritten key agrees rows)
      ∙ ap (λ g. map g (distinct same (map key rows)))
          (fun_ext (λ k.
            ap (row k) (keep-rewritten (λ l. same k (key l)) (λ l. ap (same k) (agrees l)) rows)
            ∙ blind k (group same key rows k)))

  module _ (percentile_cont : ℕ → List ℤ → Option ℤ) (date_trunc : String → ℕ → ℕ)
      (repr : String → String) where
    window-rewritten :
        (since : ℕ) (logs : List InferenceLog)
        → in_window since (map rewritten logs) ≡ map rewritten (in_window since logs)
    window-rewritten since logs = keep-rewritten (λ l. leb since l.completed_at) (λ l. refl) logs

    bucket_row-rewritten :
        (b : ℕ) (ls : List InferenceLog)
        → bucket_row percentile_cont date_trunc repr b (map rewritten ls)
          ≡ bucket_row percentile_cont date_trunc repr b ls
    bucket_row-rewritten b ls = rw (
      length-map rewritten ls,
      count-rewritten (λ l. is_error l.status) (λ l. refl) ls,
      count-rewritten (λ l. is_cancelled l.status) (λ l. refl) ls,
      present-rewritten (λ l. l.latency_ms) (λ l. refl) ls,
      present-rewritten (λ l. l.ttft_ms) (λ l. refl) ls,
    )

    provider_row-rewritten :
        (k : String × String) (ls : List InferenceLog)
        → provider_row percentile_cont date_trunc repr k (map rewritten ls)
          ≡ provider_row percentile_cont date_trunc repr k ls
    provider_row-rewritten k ls = rw (
      length-map rewritten ls,
      count-rewritten (λ l. is_error l.status) (λ l. refl) ls,
      count-rewritten (λ l. is_cancelled l.status) (λ l. refl) ls,
      present-rewritten (λ l. l.latency_ms) (λ l. refl) ls,
      present-rewritten (λ l. l.ttft_ms) (λ l. refl) ls,
      sum-rewritten (λ l. l.input_tokens) (λ l. refl) ls,
      sum-rewritten (λ l. l.output_tokens) (λ l. refl) ls,
    )

    totals_of-rewritten :
        (ls : List InferenceLog)
        → totals_of percentile_cont date_trunc repr (map rewritten ls)
          ≡ totals_of percentile_cont date_trunc repr ls
    totals_of-rewritten ls = rw (
      length-map rewritten ls,
      count-rewritten (λ l. is_error l.status) (λ l. refl) ls,
      count-rewritten (λ l. is_cancelled l.status) (λ l. refl) ls,
      present-rewritten (λ l. l.latency_ms) (λ l. refl) ls,
      present-rewritten (λ l. l.ttft_ms) (λ l. refl) ls,
      sum-rewritten (λ l. l.input_tokens) (λ l. refl) ls,
      sum-rewritten (λ l. l.output_tokens) (λ l. refl) ls,
    )

    -- The totals, the series and the breakdown of a window are the same whenever the worker wrote
    -- the rows: rows that differ in nothing but `ingested_at` have the same aggregates.
    pub aggregates-ignore_ingested :
        (since : ℕ) (interval : String) (logs : List InferenceLog)
        → (totals percentile_cont date_trunc repr since (map rewritten logs)
            ≡ totals percentile_cont date_trunc repr since logs)
          × (time_series percentile_cont date_trunc repr since interval (map rewritten logs)
              ≡ time_series percentile_cont date_trunc repr since interval logs)
          × (by_provider percentile_cont date_trunc repr since (map rewritten logs)
              ≡ by_provider percentile_cont date_trunc repr since logs)
    unfolding totals time_series by_provider
    aggregates-ignore_ingested since interval logs =
        let rows = in_window since logs in
        let window = window-rewritten since logs in
        let trunc = bucket_of percentile_cont date_trunc repr interval in
        (
          ap (totals_of percentile_cont date_trunc repr) window ∙ totals_of-rewritten rows,
          ap
              (λ bs.
                if not (allowed_interval interval)
                then err (other "ValueError" ("unsupported interval: " <> repr interval))
                else ok bs)
              (ap (series_of percentile_cont date_trunc repr interval) window
                ∙ ap (order_by by_bucket) (
                    groups-rewritten (◌==◌) trunc (λ l. refl)
                      (bucket_row percentile_cont date_trunc repr) bucket_row-rewritten rows)),
          ap (breakdown_of percentile_cont date_trunc repr) window
              ∙ ap (order_by by_requests) (
                  groups-rewritten same_model (model_of percentile_cont date_trunc repr) (λ l. refl)
                    (provider_row percentile_cont date_trunc repr) provider_row-rewritten rows),
        )
