-- ===== src/Api/Logs/Pages.antt =====
-- backend/app/api/metrics.py: a client that follows the cursor of `recent_logs` to the end.
use mathlib.Core.List.{map-append}
use llm_inference_logger.Prelude.{
  ℕ, zero, suc, ◌^◌, ◌≤◌, ◌<◌, String, ◌≡◌, refl, sym, ap, ◌∙◌, subst, fun_ext, inl, inr, true,
  false, ◌&&◌, Option, none, some, List, [], ◌++◌, map, append-nil, arith, Text, leb, ◌==◌,
  if◌then◌else◌, Bool-cases, length, take, drop, keep, All, ==_iff, keep-keep, last, All-last,
  All-take, keep-holds, take-all, length-take, last-full, length-drop, All-keep, keep-All,
  take-append-drop, All-every, length-keep,
}
use llm_inference_logger.Prelude.Order.{order_by}
use llm_inference_logger.Domain.Uuid.{print_uuid}
use llm_inference_logger.Domain.Enums.{InferenceStatus}
use llm_inference_logger.Db.Tables.{InferenceLog}
use llm_inference_logger.Db.InferenceLogs.{newer, before_cursor, matches, list_recent}
use llm_inference_logger.Db.InferenceLogs.Laws.{DistinctIds}
use llm_inference_logger.Api.Logs.{
  LogRowOut, LogPage, log_row_out, page_with, page_of, page_filter, recent_logs,
}
use llm_inference_logger.Prelude.Order.Laws.{
  keep-order_by, keep-IsOrdered, order_by-IsOrdered, order_by-All, length-order_by,
}
use llm_inference_logger.Db.InferenceLogs.Order.{
  newer-IsOrder, IsApart, keep-newer-last, keep-IsApart, order_by-IsApart, DistinctIds-IsApart,
}

-- `read_id` is the reading of `before_id` from the query, which a library does.
module _ (read_id : Text → Option ℕ) where
  abbrev read_cursor : Option Text → Option ℕ
  read_cursor none = none
  read_cursor (some s) = read_id s

  -- The items of a page, and those of the pages that its cursor leads to.
  abbrev pub follow : (Option ℕ → Option ℕ → List LogRowOut) → LogPage → List LogRowOut
  follow next p =
      p.items
      ++ elim p.next_before [ none ↦ [] | some t ↦ next (some t) (read_cursor p.next_before_id) ]

  -- All the pages from a cursor on; at most `fuel` of them.
  unfoldable pub read_pages :
      ℕ
      → ℕ
      → Option String
      → Option InferenceStatus
      → List InferenceLog
      → Option ℕ
      → Option ℕ
      → List LogRowOut
  unfolding recent_logs
  read_pages zero limit provider status logs before before_id = []
  read_pages (suc fuel) limit provider status logs before before_id =
      follow (read_pages fuel limit provider status logs)
        (recent_logs limit provider status before before_id logs)

-- A page that is not full holds all the rows.
length-short {ℓ} :
    {A : Type ℓ} (m : ℕ) (xs : List A) → (length (take m xs) == m) ≡ false → length xs ≤ m
length-short m xs h = elim (Bool-cases (leb m (length xs))) [
  | inl e ↦ absurd (ground (arith, length-take m xs, h, e))
  | inr e ↦ ground (arith, e)
]

-- A row behind a row that is behind the cursor is behind the cursor.
cursor_trans :
    (b i : Option ℕ) (x l : InferenceLog)
    → before_cursor b i x ≡ true
    → (before_cursor b i l && newer x l) ≡ newer x l
cursor_trans none i x l h = refl
cursor_trans (some t) none x l h = ground (arith, h)
cursor_trans (some t) (some i) x l h = ground (arith, h)

keep-newer-cursor :
    (b i : Option ℕ) (x : InferenceLog) (ls : List InferenceLog)
    → before_cursor b i x ≡ true
    → keep (newer x) (keep (before_cursor b i) ls) ≡ keep (newer x) ls
keep-newer-cursor b i x ls h =
    sym (keep-keep (before_cursor b i) (newer x) ls)
    ∙ ap (λ p. keep p ls) (fun_ext (λ l. cursor_trans b i x l h))

module _ (provider : Option String) (status : Option InferenceStatus)
    (logs : List InferenceLog) where
  -- The calls that match, newest first.
  abbrev matching : List InferenceLog
  matching = order_by newer (keep (matches (page_filter provider status)) logs)

  rows-matching :
      (limit : ℕ) (b i : Option ℕ)
      → list_recent limit (page_filter provider status) b i logs
        ≡ take limit (keep (before_cursor b i) matching)
  unfolding list_recent
  rows-matching limit b i =
      ap (λ z. take limit (order_by newer z))
        (keep-keep (matches (page_filter provider status)) (before_cursor b i) logs)
      ∙ ap (take limit) (
          keep-order_by newer newer-IsOrder (before_cursor b i)
            (keep (matches (page_filter provider status)) logs))

  recent_logs-page :
      (limit : ℕ) (b i : Option ℕ)
      → recent_logs limit provider status b i logs
        ≡ page_of limit (take limit (keep (before_cursor b i) matching))
  unfolding recent_logs
  recent_logs-page limit b i = ap (page_of limit) (rows-matching limit b i)

  module _ (read_id : Text → Option ℕ)
      (reads : (u : ℕ) → u < 2 ^ 128 → read_id (print_uuid u) ≡ some u) where
    abbrev HasUuid : InferenceLog → Type 0
    HasUuid l = l.id < 2 ^ 128

    module _ (limit : ℕ) (b i : Option ℕ) (apart : IsApart matching) where
      -- The rows behind a cursor.
      abbrev behind : List InferenceLog
      behind = keep (before_cursor b i) matching

      -- The rows behind a full page are those behind its last row.
      rest-behind :
          (n : ℕ) (x : InferenceLog)
          → limit ≡ suc n
          → (length (take limit behind) == limit) ≡ true
          → last (take limit behind) ≡ some x
          → keep (newer x) matching ≡ drop limit behind
      rest-behind n x e0 full e =
          let full' : length (take limit behind) ≡ limit =
            (==_iff (length (take limit behind)) limit).0 full in
          sym (
            keep-newer-cursor b i x matching (
              All-last (λ l. before_cursor b i l ≡ true) (take limit behind) x
                (All-take (λ l. before_cursor b i l ≡ true) limit behind
                  (keep-holds (before_cursor b i) matching))
                e))
          ∙ subst
              (λ m.
                length (take m behind) ≡ m
                → last (take m behind) ≡ some x
                → keep (newer x) behind ≡ drop m behind)
              (sym e0)
              (keep-newer-last n behind x
                (keep-IsOrdered newer newer-IsOrder (before_cursor b i) matching (
                  order_by-IsOrdered newer newer-IsOrder
                    (keep (matches (page_filter provider status)) logs)))
                (keep-IsApart (before_cursor b i) matching apart))
              full' e

    -- What the pages from a cursor on hold.
    abbrev Follows : ℕ → ℕ → Option ℕ → Option ℕ → Type 0
    Follows fuel limit b i =
        read_pages read_id fuel limit provider status logs b i
        ≡ map log_row_out (keep (before_cursor b i) matching)

    module _ (n : ℕ) (apart : IsApart matching) (uuids : All HasUuid matching) where
      -- Fewer rows are behind a page.
      fewer :
          (m fuel : ℕ) (bs rs : List InferenceLog)
          → 1 ≤ m
          → 1 ≤ length bs
          → length bs < suc fuel
          → rs ≡ drop m bs
          → length rs < fuel
      fewer m fuel bs rs h k enough e = omega (arith, ap length e, length-drop m bs)

      -- One page and, where it is full, the pages that follow it.
      page-Follows :
          (fuel : ℕ) (b i : Option ℕ)
          → ((x : InferenceLog)
              → length (keep (newer x) matching) < fuel
              → Follows fuel (suc n) (some x.started_at) (some x.id))
          → length (keep (before_cursor b i) matching) < suc fuel
          → Follows (suc fuel) (suc n) b i
      unfolding read_pages page_with
      page-Follows fuel b i next enough =
          let bs = keep (before_cursor b i) matching in
          let rows = take (suc n) bs in
          let more = follow read_id (read_pages read_id fuel (suc n) provider status logs) in
          ap more (recent_logs-page (suc n) b i) ∙ elim (Bool-cases (length rows == suc n)) [
            | inr e ↦
                ap (λ r. more (page_with r rows)) (ap (λ c. if c then last rows else none) e)
                ∙ append-nil (map log_row_out rows)
                ∙ ap (map log_row_out) (take-all (suc n) bs (length-short (suc n) bs e))
            | inl e ↦
                let full : length rows ≡ suc n = (==_iff (length rows) (suc n)).0 e in
                let found = last-full n rows full in
                let x = found.0 in
                let rest = rest-behind (suc n) b i apart n x refl e found.1 in
                let small : x.id < 2 ^ 128 =
                  All-last HasUuid rows x
                    (All-take HasUuid (suc n) bs
                      (All-keep HasUuid (before_cursor b i) matching uuids))
                    found.1 in
                ap (λ r. more (page_with r rows))
                  (ap (λ c. if c then last rows else none) e ∙ found.1)
                ∙ ap
                    (λ j.
                      map log_row_out rows
                      ++ read_pages read_id fuel (suc n) provider status logs (some x.started_at) j)
                    (reads x.id small)
                ∙ ap (λ z. map log_row_out rows ++ z)
                    (next x (
                        fewer (suc n) fuel bs (keep (newer x) matching) (omega arith)
                          (omega (arith, full, length-take (suc n) bs)) enough rest)
                      ∙ ap (map log_row_out) rest)
                ∙ sym (map-append log_row_out rows (drop (suc n) bs))
                ∙ ap (map log_row_out) (take-append-drop (suc n) bs)
          ]

      all-Follows :
          (fuel : ℕ) (b i : Option ℕ)
          → length (keep (before_cursor b i) matching) < fuel
          → Follows fuel (suc n) b i
      all-Follows zero b i h = absurd (omega arith)
      all-Follows (suc fuel) b i h =
          page-Follows fuel b i (λ x k. all-Follows fuel (some x.started_at) (some x.id) k) h

-- A client that asks for pages of at least one row, and follows the cursor of every full page,
-- reads each call that matches its filters exactly once, the newest first, whatever the size of a
-- page; it has read all of them after at most as many pages as there are rows, and one more. No two
-- rows have the same id, ids have 128 bits, and an id is read back from its text.
pub read_pages_complete :
    (read_id : Text → Option ℕ)
    → ((u : ℕ) → u < 2 ^ 128 → read_id (print_uuid u) ≡ some u)
    → (fuel limit : ℕ) (provider : Option String) (status : Option InferenceStatus)
      (logs : List InferenceLog)
    → 1 ≤ limit
    → DistinctIds logs
    → All (λ l. l.id < 2 ^ 128) logs
    → length logs < fuel
    → read_pages read_id fuel limit provider status logs none none
      ≡ map log_row_out (order_by newer (keep (matches (page_filter provider status)) logs))
read_pages_complete read_id reads fuel zero provider status logs some_rows distinct uuids enough =
    absurd (omega arith)
read_pages_complete read_id reads fuel (suc n) provider status logs some_rows distinct uuids
      enough =
    let f = matches (page_filter provider status) in
    let rows = matching provider status logs in
    let whole : keep (before_cursor none none) rows ≡ rows =
      keep-All (before_cursor none none) rows
        (All-every (λ l. before_cursor none none l ≡ true) rows (λ l. refl)) in
    let apart : IsApart rows =
      order_by-IsApart (keep f logs) (keep-IsApart f logs (DistinctIds-IsApart logs distinct)) in
    let small : All (λ l. l.id < 2 ^ 128) rows =
      order_by-All newer (λ l. l.id < 2 ^ 128) (keep f logs)
        (All-keep (λ l. l.id < 2 ^ 128) f logs uuids) in
    all-Follows provider status logs read_id reads n apart small fuel none none (
      omega
        (arith, enough, ap length whole, length-order_by newer (keep f logs), length-keep f logs))
    ∙ ap (map log_row_out) whole
