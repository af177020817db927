-- ===== src/Db/Session.antt =====
-- backend/app/db/session.py: one unit of work. A statement reaches the database or fails as the
-- connection decides; the schedule of faults is an argument of every theorem, through the state.
pub mod Laws
pub mod Keeps
pub mod Returns
use llm_inference_logger.Prelude.{ℕ, List, [], ◌∷◌}
use llm_inference_logger.Prelude.Outcome.{Result, ok, err, Exec}
use llm_inference_logger.Core.Errors.{Exn, other}
use llm_inference_logger.Db.Tables.{Db}

-- What happens to one call of an external service: it is served, it fails before it has an
-- effect, or it has its effect and the answer is lost. A statement on the database with a text that
-- Postgres does not take counts as refused where the statement itself does not test the text.
pub data Fault : Type 0 where
  served refused answer_lost : Fault

-- `now` is the start of the running transaction. A schedule that has run out means `served`.
pub record Conn (P : Type 0) : Type 0 where
  pub db : Db P
  pub now : ℕ
  pub faults : List Fault

abbrev pub Sql : Type 0 → Type 0 → Type 0
Sql P A = Exec (Conn P) Exn A

abbrev pub unavailable : Exn
unavailable = other "OperationalError" "the database is unreachable"

abbrev pub integrity_error : Exn
integrity_error = other "IntegrityError" "a constraint is violated"

abbrev pub data_error : Exn
data_error = other "DataError" "a value does not fit its column"

-- The next fault, and the schedule after it.
abbrev pub next_fault : List Fault → Fault
next_fault [] = served
next_fault (f ∷ _) = f

abbrev pub later_faults : List Fault → List Fault
later_faults [] = []
later_faults (_ ∷ fs) = fs

module _ {P A : Type 0} where
  -- A statement that has the effect of `f` on the tables, or raises. A statement whose answer is
  -- lost raises too; the transaction ends without a commit in either case.
  unfoldable pub statement : (Db P → Result Exn (A × Db P)) → Sql P A
  statement f c = elim (next_fault c.faults) [
    | served ↦ elim (f c.db) [
      | ok (a, db') ↦ (ok a, record c { db = db'; faults = later_faults c.faults })
      | err e ↦ (err e, record c { faults = later_faults c.faults })
    ]
    | refused ↦ (err unavailable, record c { faults = later_faults c.faults })
    | answer_lost ↦ (err unavailable, record c { faults = later_faults c.faults })
  ]

  -- `session.commit()`, or the rollback: the tables are those of `before` unless the commit had
  -- its effect.
  abbrev pub finish : Db P → Result Exn A × Conn P → Result Exn A × Conn P
  finish before (err e, c) = (err e, record c { db = before })
  finish before (ok a, c) = elim (next_fault c.faults) [
    | served ↦ (ok a, record c { faults = later_faults c.faults })
    | refused ↦ (err unavailable, record c { db = before; faults = later_faults c.faults })
    | answer_lost ↦ (err unavailable, record c { faults = later_faults c.faults })
  ]

  -- `async with database.session()`, begun at time `now`.
  unfoldable pub session : ℕ → Sql P A → Sql P A
  session now body c = finish c.db (body (record c { now = now }))
