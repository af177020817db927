-- ===== src/Api/Health/Tests.antt =====
-- The probe of a database that answers, and of one that does not.
use llm_inference_logger.Prelude.{◌≡◌, refl, [], ◌∷◌}
use llm_inference_logger.Api.Health.{readiness}
use llm_inference_logger.Db.Conversations.Seq.{calm}
use llm_inference_logger.Db.Tables.{empty_db}
use llm_inference_logger.Db.Session.{refused}

ready :
    readiness (calm (empty_db Unit) 0)
    ≡ (record { status_code = 200; status = "ready"; database = "ok" }, calm (empty_db Unit) 0)
unfolding readiness
ready = refl

down :
    (readiness (record (calm (empty_db Unit) 0) { faults = refused ∷ [] })).0
    ≡ record { status_code = 503; status = "degraded"; database = "unreachable" }
unfolding readiness
down = refl
