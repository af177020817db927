-- ===== src/Db/Session/Laws.antt =====
-- What one statement does to the tables, whatever fault meets it.
use llm_inference_logger.Prelude.{◌≡◌, refl, ◌⊎◌, inl, inr, arith}
use llm_inference_logger.Core.Errors.{Exn}
use llm_inference_logger.Prelude.Outcome.{ok, Result, err}
use llm_inference_logger.Db.Tables.{Db}
use llm_inference_logger.Db.Session.{
  statement, Conn, next_fault, Fault, served, refused, answer_lost,
}

pub Fault-cases : (x : Fault) → (x ≡ served) ⊎ (x ≡ refused) ⊎ (x ≡ answer_lost)
Fault-cases served = inl refl
Fault-cases refused = inr (inl refl)
Fault-cases answer_lost = inr (inr refl)

pub Result-cases :
    {A : Type 0} (r : Result Exn A) → ((a : A) × (r ≡ ok a)) ⊎ ((e : Exn) × (r ≡ err e))
Result-cases (ok a) = inl (a, refl)
Result-cases (err e) = inr (e, refl)

module _ {P : Type 0} where
  pub statement-keeps :
      {A : Type 0} (Q : Db P → Type 0) (f : Db P → Result Exn (A × Db P)) (c : Conn P)
      → Q c.db
      → ((a : A) (db : Db P) → f c.db ≡ ok (a, db) → Q db)
      → Q (statement f c).1.db
  unfolding statement
  statement-keeps {A} Q f c h k = elim (Fault-cases (next_fault c.faults)) [
    | inl s ↦ elim (Result-cases (f c.db)) [
      | inl ((a, db), e) ↦ rw (s, statement) (rw e (k a db e))
      | inr (x, e) ↦ rw (s, statement) (rw e h)
    ]
    | inr (inl s) ↦ rw (s, statement) h
    | inr (inr s) ↦ rw (s, statement) h
  ]

  pub statement-reads :
      {A : Type 0} (g : Db P → A) (c : Conn P)
      → ((statement (λ db. ok (g db, db)) c).1.db ≡ c.db)
        × ((a : A) → (statement (λ db. ok (g db, db)) c).0 ≡ ok a → a ≡ g c.db)
  unfolding statement
  statement-reads g c = elim (Fault-cases (next_fault c.faults)) [
    | inl s ↦ (rw (s, statement) refl, λ a h. ground (arith, h, s))
    | inr (inl s) ↦ (rw (s, statement) refl, λ a h. ground (arith, h, s))
    | inr (inr s) ↦ (rw (s, statement) refl, λ a h. ground (arith, h, s))
  ]
