-- ===== src/Db/Conversations/Served.antt =====
-- The statements of a turn on a connection that serves every statement.
use llm_inference_logger.Prelude.{
  ℕ, ◌≡◌, refl, sym, ap, subst, ◌≢◌, inl, inr, false, List, [], ◌∷◌, ◌++◌, arith, Text, ◌==◌,
  is_some, Bool-cases, ==_iff,
}
use llm_inference_logger.Db.Session.{session, statement, Sql, Conn, finish}
use llm_inference_logger.Db.Tables.{Db, find_message, Message}
use llm_inference_logger.Db.Conversations.Seq.{
  IsNumbered, calm, append_message-run, appended, append_message-IsNumbered, append_message-appends,
}
use llm_inference_logger.Prelude.Outcome.{pure, ◌>>=◌, Result, ok}
use llm_inference_logger.Prelude.Outcome.Runs.{Runs, bind-Runs}
use llm_inference_logger.Db.Conversations.Known.{Knows, append_message-Knows}
use llm_inference_logger.Core.Errors.{Exn}
use llm_inference_logger.Domain.Enums.{MessageRole}
use llm_inference_logger.Db.Conversations.{append_message, in_order}

-- The messages are numbered, the conversation is there, and an id is still free.
pub record Ready {P : Type 0} (i free : ℕ) (db : Db P) : Type 0 where
  pub numbered : IsNumbered db.messages
  pub known : Knows i db
  pub unused : is_some (find_message free db.messages) ≡ false

-- The row of an append is the last one, and the id that is free stays free.
find_message-append :
    (k : ℕ) (ms : List Message) (m : Message)
    → is_some (find_message k ms) ≡ false
    → m.id ≢ k
    → is_some (find_message k (ms ++ m ∷ [])) ≡ false
find_message-append k [] m h n = elim (Bool-cases (m.id == k)) [
  | inl e ↦ absurd (n ((==_iff m.id k).0 e))
  | inr e ↦ rw e refl
]
find_message-append k (x ∷ ms) m h n = elim (Bool-cases (x.id == k)) [
  | inl e ↦ absurd (ground (arith, h))
  | inr e ↦ rw e (find_message-append k ms m (ground (arith, h)) n)
]

module _ {P : Type 0} where
  -- A computation that returns where nothing fails, with what holds of its value and the tables.
  abbrev pub Served : {A : Type 0} → Sql P A → Db P → ℕ → (A → Db P → Type 0) → Type 0
  Served {A} m db now R = Runs m (calm db now) (λ a c. (db' : Db P) × (c ≡ calm db' now) × R a db')

  -- The tables and the time of a state in which nothing fails.
  abbrev pub Settles : {A : Type 0} → ℕ → (A → Db P → Type 0) → A → Conn P → Type 0
  Settles now R a c = (db' : Db P) × (c ≡ calm db' now) × R a db'

  pub bind-Served :
      {A B : Type 0} (R : A → Db P → Type 0) (Q : B → Db P → Type 0) (m : Sql P A) (f : A → Sql P B)
      (db : Db P) (now : ℕ)
      → Served m db now R
      → ((a : A) (db' : Db P) → R a db' → Served (f a) db' now Q)
      → Served (m >>= f) db now Q
  bind-Served R Q m f db now h k =
      bind-Runs (Settles now R) (Settles now Q) m f (calm db now) h (λ a c settled.
        let (db', e, r) = settled in subst (λ x. Runs (f a) x (Settles now Q)) (sym e) (k a db' r))

  pub pure-Served :
      {A : Type 0} (R : A → Db P → Type 0) (a : A) (db : Db P) (now : ℕ)
      → R a db
      → Served (pure a) db now R
  pure-Served R a db now h = (a, refl, (db, refl, h))

  pub statement-Served :
      {A : Type 0} (f : Db P → Result Exn (A × Db P)) (db : Db P) (now : ℕ) (a : A) (db' : Db P)
      (R : A → Db P → Type 0)
      → f db ≡ ok (a, db')
      → R a db'
      → Served (statement f) db now R
  unfolding statement
  statement-Served f db now a db' R r h = (a, rw r refl, (db', rw r refl, h))

  pub finish-calm :
      {A : Type 0} (before db' : Db P) (now : ℕ) (x : Result Exn A × Conn P) (a : A)
      → x.0 ≡ ok a
      → x.1 ≡ calm db' now
      → finish before x ≡ (ok a, calm db' now)
  finish-calm before db' now x a e s =
      let whole : x ≡ (ok a, calm db' now) = cc (e, s) in ap (finish before) whole

  pub session-Served :
      {A : Type 0} (start now : ℕ) (body : Sql P A) (db : Db P) (R : A → Db P → Type 0)
      → Served body db now R
      → Runs (session now body) (calm db start) (Settles now R)
  unfolding session
  session-Served start now body db R (a, e, (db', s, r)) =
      let done = finish-calm db db' now (body (calm db now)) a e s in
      (a, ap (λ x. x.0) done, (db', ap (λ x. x.1) done, r))

  pub append_message-Served :
      (mid i free : ℕ) (role : MessageRole) (content : Text) (db : Db P) (now : ℕ)
      → Ready i free db
      → is_some (find_message mid db.messages) ≡ false
      → mid ≢ free
      → Served (append_message mid i role content) db now (λ m db'.
        Ready i free db'
        × (m ≡ appended mid i role content db now)
        × (in_order i db' ≡ in_order i db ++ m ∷ []))
  append_message-Served mid i free role content db now ready fresh other =
      let run = append_message-run mid i role content db now ready.known fresh ready.numbered in
      let c = (append_message mid i role content (calm db now)).1 in
      let at_rest : c ≡ calm c.db now = ground (arith, run.2, run.3) in
      let last =
        find_message-append free db.messages (appended mid i role content db now) ready.unused
          other in
      let row = appended mid i role content db now in
      (
        row,
        run.0,
        (
          c.db,
          at_rest,
          (
            record {
              numbered = append_message-IsNumbered mid i role content (calm db now) ready.numbered;
              known = append_message-Knows i mid i role content (calm db now) ready.known;
              unused = subst (λ ms. is_some (find_message free ms) ≡ false) (sym run.1) last;
            },
            refl,
            (append_message-appends mid i role content db now ready.known fresh ready.numbered).1,
          ),
        ),
      )
