-- ===== src/Db/Metrics/Sums.antt =====
-- The series and the breakdown add up to the totals of the same window.
use llm_inference_logger.Prelude.{
  ℕ, ◌+◌, String, ◌<>◌, ◌≡◌, refl, sym, ap, ◌∙◌, fun_ext, Bool, true, false, Option, List, [], ◌∷◌,
  map, arith, ◌==◌, if◌then◌else◌, length, count, All, ℤ, pos, ◌+ℤ◌,
}
use llm_inference_logger.Prelude.Order.{order_by}
use llm_inference_logger.Prelude.Order.Laws.{IsOrder, IsOrdered, order_by-IsOrdered}
use llm_inference_logger.Prelude.Outcome.{ok, err}
use llm_inference_logger.Core.Errors.{other}
use llm_inference_logger.Domain.Enums.{is_error, is_cancelled}
use llm_inference_logger.Db.Tables.{InferenceLog}
use llm_inference_logger.Db.Metrics.{
  distinct, group, sum, value_or_zero, in_window, totals, Totals, time_series, TimeBucket,
  by_bucket, bucket_row, bucket_of, by_provider, ProviderBreakdown, by_requests, provider_row,
  model_of, same_model, allowed_interval,
}
use llm_inference_logger.Db.Metrics.Groups.{
  IsSum, nat-IsSum, int-IsSum, total, total-map, total-order_by, total-groups,
}
use llm_inference_logger.Db.Metrics.Keys.{
  IsEquality, nat-IsEquality, model-IsEquality, distinct-once,
}

length-total : (ls : List InferenceLog) → length ls ≡ total (◌+◌) 0 (λ l. 1) ls
length-total [] = refl
length-total (l ∷ ls) = omega (arith, length-total ls)

count-total :
    (p : InferenceLog → Bool) (ls : List InferenceLog)
    → count p ls ≡ total (◌+◌) 0 (λ l. if p l then 1 else 0) ls
count-total p [] = refl
count-total p (l ∷ ls) = ap (λ n. (if p l then 1 else 0) + n) (count-total p ls)

sum-total :
    (column : InferenceLog → Option ℤ) (ls : List InferenceLog)
    → sum column ls ≡ total (◌+ℤ◌) (pos 0) (λ l. value_or_zero (column l)) ls
sum-total column [] = refl
sum-total column (l ∷ ls) = ap (λ z. value_or_zero (column l) +ℤ z) (sum-total column ls)

All-keys :
    {K : Type 0} (P : K → Type 0) (key : InferenceLog → K) (ls : List InferenceLog)
    → All P (map key ls)
    → All (λ l. P (key l)) ls
All-keys P key [] h = tt
All-keys P key (l ∷ ls) h = (h.0, All-keys P key ls h.1)

-- What a column of the grouped rows adds up to, where it is a total `w` in each group.
grouped :
    {K R M : Type 0} {op : M → M → M} {e : M}
    → IsSum M op e
    → (same : K → K → Bool) → IsEquality same
    → (key : InferenceLog → K) (before : R → R → Bool) (row : K → List InferenceLog → R)
    → (f : R → M) (w : InferenceLog → M)
    → ((k : K) (ls : List InferenceLog) → f (row k ls) ≡ total op e w ls)
    → (rows : List InferenceLog)
    → total op e f
        (order_by before (map (λ k. row k (group same key rows k)) (distinct same (map key rows))))
      ≡ total op e w rows
grouped {op = op} {e = e} s same eq key before row f w agrees rows =
    let ds = distinct same (map key rows) in
    total-order_by op e s before f (map (λ k. row k (group same key rows k)) ds)
    ∙ total-map op e f (λ k. row k (group same key rows k)) ds
    ∙ ap (λ g. total op e g ds) (fun_ext (λ k. agrees k (group same key rows k)))
    ∙ total-groups op e s same key w ds rows (
        All-keys (λ j. count (λ d. same d j) ds ≡ 1) key rows
          (distinct-once same eq (map key rows)))

by_bucket-IsOrder : IsOrder by_bucket
by_bucket-IsOrder = record {
  asym = λ x y h. ground (arith, h);
  trans = λ x y z h k. ground (arith, h, k);
}

by_requests-IsOrder : IsOrder by_requests
by_requests-IsOrder = record {
  asym = λ x y h. ground (arith, h);
  trans = λ x y z h k. ground (arith, h, k);
}

module _ (percentile_cont : ℕ → List ℤ → Option ℤ) (date_trunc : String → ℕ → ℕ)
    (repr : String → String) where
  -- The counts of a series in order are those of the totals.
  pub record IsSeriesOf (t : Totals) (bs : List TimeBucket) : Type 0 where
    pub ordered : IsOrdered by_bucket bs
    pub requests : total (◌+◌) 0 (λ b. b.requests) bs ≡ t.requests
    pub errors : total (◌+◌) 0 (λ b. b.errors) bs ≡ t.errors
    pub cancellations : total (◌+◌) 0 (λ b. b.cancellations) bs ≡ t.cancellations

  -- An interval that is allowed is answered by buckets in the order of time, whose requests,
  -- errors and cancellations add up to the totals of the same window; any other interval raises.
  pub time_series-adds_up :
      (since : ℕ) (interval : String) (logs : List InferenceLog)
      → (allowed_interval interval ≡ true
          → (bs : List TimeBucket) × (time_series percentile_cont date_trunc repr since interval
                logs
              ≡ ok bs)
            × IsSeriesOf (totals percentile_cont date_trunc repr since logs) bs)
        × (allowed_interval interval ≡ false
            → time_series percentile_cont date_trunc repr since interval logs
              ≡ err (other "ValueError" ("unsupported interval: " <> repr interval)))
  unfolding time_series totals
  time_series-adds_up since interval logs =
      let rows = in_window since logs in
      let key = bucket_of percentile_cont date_trunc repr interval in
      let row = bucket_row percentile_cont date_trunc repr in
      let bs =
        order_by by_bucket
          (map (λ b. row b (group (◌==◌) key rows b)) (distinct (◌==◌) (map key rows))) in
      let counted : (p : InferenceLog → Bool) (f : TimeBucket → ℕ)
          → ((k : ℕ) (ls : List InferenceLog) → f (row k ls) ≡ count p ls)
          → total (◌+◌) 0 f bs ≡ count p rows =
        λ p f h.
          grouped nat-IsSum (◌==◌) nat-IsEquality key by_bucket row f (λ l. if p l then 1 else 0)
            (λ k ls. h k ls ∙ count-total p ls) rows
          ∙ sym (count-total p rows) in
      (
        λ h. (
          bs,
          rw h refl,
          record {
            ordered =
                order_by-IsOrdered by_bucket by_bucket-IsOrder
                  (map (λ b. row b (group (◌==◌) key rows b)) (distinct (◌==◌) (map key rows)));
            requests =
                grouped nat-IsSum (◌==◌) nat-IsEquality key by_bucket row (λ b. b.requests) (λ l. 1)
                  (λ k ls. length-total ls) rows
                ∙ sym (length-total rows);
            errors = counted (λ l. is_error l.status) (λ b. b.errors) (λ k ls. refl);
            cancellations =
                counted (λ l. is_cancelled l.status) (λ b. b.cancellations) (λ k ls. refl);
          },
        ),
        λ h. rw h refl,
      )

  -- The counts and the tokens of a breakdown in order are those of the totals.
  pub record IsBreakdownOf (t : Totals) (ps : List ProviderBreakdown) : Type 0 where
    pub ordered : IsOrdered by_requests ps
    pub requests : total (◌+◌) 0 (λ p. p.requests) ps ≡ t.requests
    pub errors : total (◌+◌) 0 (λ p. p.errors) ps ≡ t.errors
    pub cancellations : total (◌+◌) 0 (λ p. p.cancellations) ps ≡ t.cancellations
    pub input_tokens : total (◌+ℤ◌) (pos 0) (λ p. p.input_tokens) ps ≡ t.input_tokens
    pub output_tokens : total (◌+ℤ◌) (pos 0) (λ p. p.output_tokens) ps ≡ t.output_tokens

  -- The breakdown by provider and model has the busiest first, and its requests, errors,
  -- cancellations and tokens add up to the totals of the same window.
  pub by_provider-adds_up :
      (since : ℕ) (logs : List InferenceLog)
      → IsBreakdownOf
          (totals percentile_cont date_trunc repr since logs)
          (by_provider percentile_cont date_trunc repr since logs)
  unfolding by_provider totals
  by_provider-adds_up since logs =
      let rows = in_window since logs in
      let key = model_of percentile_cont date_trunc repr in
      let row = provider_row percentile_cont date_trunc repr in
      let ps =
        order_by by_requests
          (map (λ k. row k (group same_model key rows k)) (distinct same_model (map key rows))) in
      let counted : (p : InferenceLog → Bool) (f : ProviderBreakdown → ℕ)
          → ((k : String × String) (ls : List InferenceLog) → f (row k ls) ≡ count p ls)
          → total (◌+◌) 0 f ps ≡ count p rows =
        λ p f h.
          grouped nat-IsSum same_model model-IsEquality key by_requests row f
            (λ l. if p l then 1 else 0) (λ k ls. h k ls ∙ count-total p ls) rows
          ∙ sym (count-total p rows) in
      let summed : (c : InferenceLog → Option ℤ) (f : ProviderBreakdown → ℤ)
          → ((k : String × String) (ls : List InferenceLog) → f (row k ls) ≡ sum c ls)
          → total (◌+ℤ◌) (pos 0) f ps ≡ sum c rows =
        λ c f h.
          grouped int-IsSum same_model model-IsEquality key by_requests row f
            (λ l. value_or_zero (c l)) (λ k ls. h k ls ∙ sum-total c ls) rows
          ∙ sym (sum-total c rows) in
      record {
        ordered =
            order_by-IsOrdered by_requests by_requests-IsOrder
              (map (λ k. row k (group same_model key rows k)) (distinct same_model (map key rows)));
        requests =
            grouped nat-IsSum same_model model-IsEquality key by_requests row (λ p. p.requests)
              (λ l. 1) (λ k ls. length-total ls) rows
            ∙ sym (length-total rows);
        errors = counted (λ l. is_error l.status) (λ p. p.errors) (λ k ls. refl);
        cancellations = counted (λ l. is_cancelled l.status) (λ p. p.cancellations) (λ k ls. refl);
        input_tokens = summed (λ l. l.input_tokens) (λ p. p.input_tokens) (λ k ls. refl);
        output_tokens = summed (λ l. l.output_tokens) (λ p. p.output_tokens) (λ k ls. refl);
      }
