-- ===== src/Db/Session/Keeps.antt =====
-- What every step of a chain keeps of the tables, the chain and its unit of work keep.
use llm_inference_logger.Prelude.{ℕ, ◌≡◌, subst, inl, inr, arith}
use llm_inference_logger.Db.Tables.{Db}
use llm_inference_logger.Db.Session.{Sql, statement, session, Conn, finish, next_fault}
use llm_inference_logger.Prelude.Outcome.{Result, pure, ok, ◌>>=◌, >>=-cases, err}
use llm_inference_logger.Core.Errors.{Exn}
use llm_inference_logger.Db.Session.Laws.{statement-keeps, Fault-cases}

module _ {P : Type 0} (Q : Db P → Type 0) where
  abbrev pub Keeps : {A : Type 0} → Sql P A → Type 0
  Keeps m = (c : Conn P) → Q c.db → Q (m c).1.db

  pub pure-Keeps : {A : Type 0} (a : A) → Keeps (pure a)
  pure-Keeps a c h = h

  pub statement-Keeps :
      {A : Type 0} (f : Db P → Result Exn (A × Db P))
      → ((db : Db P) (a : A) (db' : Db P) → Q db → f db ≡ ok (a, db') → Q db')
      → Keeps (statement f)
  statement-Keeps f k c h = statement-keeps Q f c h (λ a db e. k c.db a db h e)

  pub read-Keeps : {A : Type 0} (g : Db P → A) → Keeps (statement (λ db. ok (g db, db)))
  read-Keeps g = statement-Keeps (λ db. ok (g db, db)) (λ db a db' h e. subst Q (ground arith) h)

  pub bind-Keeps :
      {A B : Type 0} (m : Sql P A) (f : A → Sql P B)
      → Keeps m
      → ((a : A) → Keeps (f a))
      → Keeps (m >>= f)
  bind-Keeps m f k l c h = >>=-cases m f c (λ x. Q x.1.db) (λ e r. k c h) (λ a r. l a _ (k c h))

  finish-Keeps :
      {A : Type 0} (before : Db P) (x : Result Exn A × Conn P)
      → Q before
      → Q x.1.db
      → Q (finish before x).1.db
  finish-Keeps before (err e, c) h k = h
  finish-Keeps before (ok a, c) h k = elim (Fault-cases (next_fault c.faults)) [
    | inl s ↦ rw (s, finish) k
    | inr (inl s) ↦ rw (s, finish) h
    | inr (inr s) ↦ rw (s, finish) k
  ]

  pub session-Keeps :
      {A : Type 0} (now : ℕ) (body : Sql P A) → Keeps body → Keeps (session now body)
  unfolding session
  session-Keeps now body k c h = finish-Keeps c.db _ h (k (record c { now = now }) h)
