-- ===== src/Api/Health.antt =====
-- backend/app/api/health.py, with `Database.check` of backend/app/db/session.py.
mod Tests
use llm_inference_logger.Prelude.{ℕ, String, Bool, if◌then◌else◌}
use llm_inference_logger.Db.Session.{statement, Conn, refused}
use llm_inference_logger.Db.Conversations.Seq.{calm}
use llm_inference_logger.Db.Tables.{empty_db}
use llm_inference_logger.Prelude.Outcome.{ok, is_ok}

-- `liveness` asks nothing of any service.
abbrev pub liveness : ℕ × String
liveness = (200, "ok")

-- `Database.check`: the probe reports, and does not raise.
unfoldable pub check_database : {P : Type 0} → Conn P → Bool × Conn P
unfolding statement
check_database c =
    let (r, c') = statement (λ db. ok (tt, db)) c in (is_ok r, record c' { db = c.db })

pub record Readiness : Type 0 where
  pub status_code : ℕ
  pub status : String
  pub database : String

-- `readiness`
unfoldable pub readiness : {P : Type 0} → Conn P → Readiness × Conn P
unfolding check_database
readiness c =
    let (healthy, c') = check_database c in
    (
      record {
        status_code = if healthy then 200 else 503;
        status = if healthy then "ready" else "degraded";
        database = if healthy then "ok" else "unreachable";
      },
      c',
    )
