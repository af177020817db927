-- ===== src/Db/Session/Returns.antt =====
-- What holds of the value that a statement, and a unit of work, returns.
use llm_inference_logger.Prelude.{ℕ, ◌≡◌, inl, inr}
use llm_inference_logger.Db.Tables.{Db}
use llm_inference_logger.Db.Session.{statement, session, Sql, Conn, finish, next_fault}
use llm_inference_logger.Prelude.Outcome.{Result, ok, err}
use llm_inference_logger.Core.Errors.{Exn}
use llm_inference_logger.Prelude.Outcome.Returns.{Returns}
use llm_inference_logger.Db.Session.Laws.{Fault-cases, Result-cases}

module _ {P A : Type 0} (R : A → Type 0) where
  pub statement-Returns :
      (f : Db P → Result Exn (A × Db P))
      → ((db : Db P) (a : A) (db' : Db P) → f db ≡ ok (a, db') → R a)
      → (c : Conn P) → Returns R (statement f c)
  unfolding statement
  statement-Returns f k c = elim (Fault-cases (next_fault c.faults)) [
    | inl s ↦ elim (Result-cases (f c.db)) [
      | inl ((a, db), e) ↦ rw (s, statement) (rw e (k c.db a db e))
      | inr (x, e) ↦ rw (s, statement) (rw e tt)
    ]
    | inr (inl s) ↦ rw (s, statement) tt
    | inr (inr s) ↦ rw (s, statement) tt
  ]

  finish-Returns :
      (before : Db P) (x : Result Exn A × Conn P) → Returns R x → Returns R (finish before x)
  finish-Returns before (err e, c) h = tt
  finish-Returns before (ok a, c) h = elim (Fault-cases (next_fault c.faults)) [
    | inl e ↦ rw (e, finish) h
    | inr (inl e) ↦ rw (e, finish) tt
    | inr (inr e) ↦ rw (e, finish) tt
  ]

  pub session-Returns :
      (now : ℕ) (body : Sql P A)
      → ((c : Conn P) → Returns R (body c))
      → (c : Conn P) → Returns R (session now body c)
  unfolding session
  session-Returns now body h c = finish-Returns c.db _ (h _)
