-- ===== src/Worker/Delivered.antt =====
-- A delivery of an event that the API published, from its payload to its row.
use llm_inference_logger.Prelude.{
  ℕ, ◌^◌, ◌<◌, String, ◌≡◌, refl, ap, ◌∙◌, Bool, true, ◌&&◌, none, some, List, [], ◌∷◌, arith,
  str_eq, str_eq_iff, codes, len, leb, ==_refl, fits_int4,
}
use llm_inference_logger.Events.Wire
use llm_inference_logger.Prelude.Outcome.{ok, ◌>>=◌, continue}
use llm_inference_logger.Domain.Event.{
  InferenceEvent, is_valid, event_type_inference, opt_at_most, fields_ok, opt_nonneg,
  check_invariants,
}
use llm_inference_logger.Domain.Uuid.RoundTrip.{parse_uuid-print_uuid}
use llm_inference_logger.Events.Wire.{Wire, extract_id, model_validate, event_type_of}
use llm_inference_logger.Events.Stream.{EventStream, DeliveredEvent}
use llm_inference_logger.Db.Tables.{
  Db, find_log, find_raw, log_types_ok, log_checks_ok, to_row, InferenceLog, opt_int4, log_texts_ok,
}
use llm_inference_logger.Db.Session.{Conn, Sql, finish}
use llm_inference_logger.Db.InferenceLogs.{upsert, fks_ok}
use llm_inference_logger.Db.RawEvents.{record_raw, mark_processed}
use llm_inference_logger.Worker.{
  World, handle, handle_id, ingest, store, in_session, Work, sql, add_written, ack,
}
use llm_inference_logger.Worker.Durable.{begun}
use llm_inference_logger.Db.Texts.{
  is_storable_name, opt_storable, opt_storable_name, opt_dict_storable,
}

-- What the schema accepts passes the CHECK constraints of the table.
pub is_valid-log_checks_ok :
    (now : ℕ) (e : InferenceEvent) → is_valid e ≡ true → log_checks_ok (to_row now e) ≡ true
unfolding is_valid log_checks_ok to_row
is_valid-log_checks_ok now e h = ground arith

-- Every integer of an event fits a 32-bit column.
abbrev pub ints_fit : InferenceEvent → Bool
ints_fit e =
    fits_int4 e.schema_version
    && opt_int4 e.latency_ms
    && opt_int4 e.ttft_ms
    && opt_int4 e.input_tokens
    && opt_int4 e.output_tokens

-- Every text of an event can be stored: no U+0000 and no surrogate is in one.
abbrev pub texts_storable : InferenceEvent → Bool
texts_storable e =
    is_storable_name e.provider
    && is_storable_name e.model
    && opt_storable e.input_preview
    && opt_storable e.output_preview
    && opt_storable_name e.error_type
    && opt_storable_name e.error_message
    && opt_storable_name e.finish_reason
    && opt_dict_storable e.raw_metadata

four-of :
    (t p p' q q' a b c d u v w : Bool)
    → ((t && (p && p') && (q && q') && a && b && c && d && u && v) && w) ≡ true
    → (p' ≡ true) × (q' ≡ true) × (u ≡ true) × (v ≡ true)
four-of t p p' q q' a b c d u v w h =
    (ground (arith, h), ground (arith, h), ground (arith, h), ground (arith, h))

texts-fit :
    (e : InferenceEvent)
    → is_valid e ≡ true
    → (leb (len e.provider) 64 ≡ true)
      × (leb (len e.model) 128 ≡ true)
      × (opt_at_most 128 e.error_type ≡ true)
      × (opt_at_most 64 e.finish_reason ≡ true)
unfolding is_valid fields_ok
texts-fit e h =
    four-of (str_eq e.event_type event_type_inference) (leb 1 (len e.provider))
      (leb (len e.provider) 64) (leb 1 (len e.model)) (leb (len e.model) 128)
      (opt_nonneg e.latency_ms) (opt_nonneg e.ttft_ms) (opt_nonneg e.input_tokens)
      (opt_nonneg e.output_tokens) (opt_at_most 128 e.error_type) (opt_at_most 64 e.finish_reason)
      (check_invariants e) h

types-of :
    (a b c d e f g h i j : Bool)
    → f ≡ true
    → g ≡ true
    → h ≡ true
    → i ≡ true
    → (a && b && c && d && e && f && g && h && i && j) ≡ ((a && b && c && d && e) && j)
types-of a b c d e f g h i j p q r s = ground (arith, p, q, r, s)

-- The row of an event that the schema accepts passes every CHECK constraint of its table, and its
-- strings are as short as their columns want them: the columns take it exactly where its integers
-- are of 32 bits and no text of it, its metadata included, has U+0000 or a surrogate in it.
pub row-fits :
    (now : ℕ) (e : InferenceEvent)
    → is_valid e ≡ true
    → (log_checks_ok (to_row now e) ≡ true)
      × (log_types_ok (to_row now e) ≡ (ints_fit e && texts_storable e))
unfolding is_valid log_types_ok log_texts_ok to_row
row-fits now e h =
    let texts = texts-fit e h in
    (
      is_valid-log_checks_ok now e h,
      types-of (fits_int4 e.schema_version) (opt_int4 e.latency_ms) (opt_int4 e.ttft_ms)
          (opt_int4 e.input_tokens) (opt_int4 e.output_tokens) (leb (len e.provider) 64)
          (leb (len e.model) 128) (opt_at_most 128 e.error_type) (opt_at_most 64 e.finish_reason)
          (texts_storable e) texts.0 texts.1 texts.2 texts.3,
    )

-- The schema fixes the type of an event.
event_type-is_valid : (e : InferenceEvent) → is_valid e ≡ true → e.event_type ≡ event_type_inference
unfolding is_valid
event_type-is_valid e h = ground (arith, str_eq_iff e.event_type event_type_inference)

module _ (W : Wire) (L : Wire.IsLawful W) (e : InferenceEvent) where
  -- The id of a dumped event is found.
  extract_id-dump : e.id < 2 ^ 128 → extract_id W (W.dump e) ≡ some e.id
  unfolding extract_id
  extract_id-dump h = rw (L.get-id e, extract_id) (parse_uuid-print_uuid e.id h)

  -- A valid event that was dumped validates, and is read as it was.
  model_validate-dump : is_valid e ≡ true → model_validate W (W.dump e) ≡ ok e
  unfolding model_validate
  model_validate-dump h = rw (L.fields-dump e, model_validate) (rw h refl)

  event_type_of-dump : is_valid e ≡ true → event_type_of W (W.dump e) ≡ codes event_type_inference
  unfolding event_type_of
  event_type_of-dump h =
      rw (L.get-event_type e, event_type_of)
        (L.to_str-str (codes e.event_type) ∙ ap codes (event_type-is_valid e h))

  -- What the table of log rows must have room for.
  record HasLogRoom (now : ℕ) (db : Db W.Payload) : Type 0 where
    types : log_types_ok (to_row now e) ≡ true
    fks : fks_ok (to_row now e) db ≡ true
    new_log : find_log (to_row now e).id db.inference_logs ≡ none

  -- What the database must have room for.
  pub record HasRoom (now : ℕ) (db : Db W.Payload) : Type 0 where
    -- the values fit their columns
    pub types : log_types_ok (to_row now e) ≡ true
    -- the rows that the event names exist
    pub fks : fks_ok (to_row now e) db ≡ true
    -- the event is new
    pub new_log : find_log e.id db.inference_logs ≡ none
    pub new_raw : find_raw e.id db.raw_events ≡ none

  upsert-calm :
      (now : ℕ) (c : Conn W.Payload)
      → is_valid e ≡ true
      → c.now ≡ now
      → c.faults ≡ []
      → HasLogRoom now c.db
      → ((upsert e c).0 ≡ ok true)
        × ((upsert e c).1.db.inference_logs ≡ to_row now e ∷ c.db.inference_logs)
        × ((upsert e c).1.faults ≡ [])
  unfolding upsert
  upsert-calm now c valid at served room = ground (arith, is_valid-log_checks_ok now e valid, at)

  mark_processed-calm :
      (i : ℕ) (c : Conn W.Payload)
      → c.faults ≡ []
      → ((mark_processed i c).0 ≡ ok tt)
        × ((mark_processed i c).1.db.inference_logs ≡ c.db.inference_logs)
        × ((mark_processed i c).1.faults ≡ [])
  unfolding mark_processed
  mark_processed-calm i c served = ground arith

  module _ (S : EventStream W.Payload) (now : ℕ) (w : World W S) (valid : is_valid e ≡ true)
      (served : w.conn.faults ≡ []) (room : HasRoom now w.conn.db) where
    record_raw-calm :
        let r =
          record_raw e.id (event_type_of W (W.dump e)) (W.dump e) (record w.conn { now = now }) in
        (r.0 ≡ ok true)
        × (r.1.db.inference_logs ≡ w.conn.db.inference_logs)
        × (r.1.db.conversations ≡ w.conn.db.conversations)
        × (r.1.db.messages ≡ w.conn.db.messages)
        × (r.1.now ≡ now)
        × (r.1.faults ≡ [])
    unfolding record_raw
    record_raw-calm = ground (arith, room.new_raw, event_type_of-dump valid)

    -- A statement that returns hands on its result and its connection.
    sql-returns :
        {A B : Type 0} (m : Sql W.Payload A) (f : A → Work W S B) (v : World W S) (a : A)
        → (m v.conn).0 ≡ ok a
        → (sql W S m >>= f) v ≡ f a (record v { conn = (m v.conn).1 })
    sql-returns m f v a h = rw h

    -- The connections after each statement of the transaction.
    recorded_conn : Conn W.Payload
    recorded_conn =
        (record_raw e.id (event_type_of W (W.dump e)) (W.dump e) (record w.conn { now = now })).1

    written_conn : Conn W.Payload
    written_conn = (upsert e recorded_conn).1

    marked_conn : Conn W.Payload
    marked_conn = (mark_processed e.id written_conn).1

    room-recorded : HasLogRoom now recorded_conn.db
    unfolding recorded_conn
    room-recorded =
        let r = record_raw-calm in
        record {
          types = room.types;
          fks = rw r.2 (rw r.3 room.fks);
          new_log = rw r.1 (unfold to_row in room.new_log);
        }

    ingest-calm :
        ingest W S e.id (W.dump e) (begun W S now w)
        ≡ (ok tt, record w { conn = marked_conn; outcome = add_written W S true w.outcome })
    unfolding ingest store recorded_conn written_conn marked_conn
    ingest-calm =
        let r = record_raw-calm in
        let u = upsert-calm now recorded_conn valid r.4 r.5 room-recorded in
        let m = mark_processed-calm e.id written_conn u.2 in
        sql-returns (record_raw e.id (event_type_of W (W.dump e)) (W.dump e))
          (λ _. store W S e.id (W.dump e) (model_validate W (W.dump e))) (begun W S now w) true r.0
        ∙ ap (λ x. store W S e.id (W.dump e) x (record w { conn = recorded_conn }))
            (model_validate-dump valid)
        ∙ sql-returns (upsert e) _ (record w { conn = recorded_conn }) true u.0
        ∙ sql-returns (mark_processed e.id) _ (record w { conn = written_conn }) tt m.0

    in_session-calm :
        (body : Work W S (Unit {0})) (v : World W S)
        → body (begun W S now w) ≡ (ok tt, v)
        → v.conn.faults ≡ []
        → let x = in_session W S now body w in
          (x.0 ≡ ok tt)
          × (x.1.conn.db ≡ v.conn.db)
          × (x.1.outcome ≡ v.outcome)
          × (x.1.stream ≡ v.stream)
    unfolding in_session
    in_session-calm body v ran calm = rw ran (rw (calm, finish) (refl, refl, refl, refl))

    -- The log rows that the transaction leaves, and that no fault is left for its end.
    marked_conn-logs :
        (marked_conn.db.inference_logs ≡ to_row now e ∷ w.conn.db.inference_logs)
        × (marked_conn.faults ≡ [])
    unfolding recorded_conn written_conn marked_conn
    marked_conn-logs =
        let r = record_raw-calm in
        let u = upsert-calm now recorded_conn valid r.4 r.5 room-recorded in
        let m = mark_processed-calm e.id written_conn u.2 in
        (m.1 ∙ u.1 ∙ ap (◌∷◌ (to_row now e)) r.1, m.2)

    find_log-to_row :
        (ls : List InferenceLog) → find_log e.id (to_row now e ∷ ls) ≡ some (to_row now e)
    unfolding find_log to_row
    find_log-to_row ls = rw (==_refl e.id)

    -- A valid event that was published, delivered to a worker whose statements are served, becomes
    -- its log row: the row holds what the event said. The delivery is counted as inserted, and then
    -- acknowledged. The event is new, its values fit their columns, and the rows it names exist.
    pub handle-dumped :
        (d : String)
        → e.id < 2 ^ 128
        → let v = (handle W S now (record { delivery_id = d; payload = W.dump e }) w).1 in
          (find_log e.id v.conn.db.inference_logs ≡ some (to_row now e))
          × (v.outcome ≡ add_written W S true w.outcome)
          × (v.stream ≡ (S.ack d w.stream).1)
    unfolding handle
    handle-dumped d small =
        let item : DeliveredEvent W.Payload = record { delivery_id = d; payload = W.dump e } in
        let t =
          in_session-calm (ingest W S e.id (W.dump e))
            (record w { conn = marked_conn; outcome = add_written W S true w.outcome }) ingest-calm
            marked_conn-logs.1 in
        let done : World W S = (in_session W S now (ingest W S e.id (W.dump e)) w).1 in
        let ran : handle W S now item w ≡ ack W S d done =
          ap (λ o. handle_id W S now item o w) (extract_id-dump small)
          ∙ ap (λ r. continue r (λ _. ack W S d) done) t.0 in
        let logs : find_log e.id done.conn.db.inference_logs ≡ some (to_row now e) =
          ap (λ b. find_log e.id b.inference_logs) t.1
          ∙ ap (find_log e.id) marked_conn-logs.0
          ∙ find_log-to_row w.conn.db.inference_logs in
        (
          ap (λ x. find_log e.id x.1.conn.db.inference_logs) ran ∙ logs,
          ap (λ x. x.1.outcome) ran ∙ t.2,
          ap (λ x. x.1.stream) ran ∙ ap (λ x. (S.ack d x).1) t.3,
        )
