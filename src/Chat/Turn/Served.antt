-- ===== src/Chat/Turn/Served.antt =====
-- The two units of work of a turn on a connection that serves every statement.
use llm_inference_logger.Prelude.{
  ℕ, ◌≡◌, refl, sym, ap, subst, ◌≢◌, inl, inr, false, Option, none, some, List, [], ◌∷◌, ◌++◌,
  arith, Text, is_some, Option-cases, ◌∙◌, String,
}
use llm_inference_logger.Chat.Turn.{
  ChatService, Ask, Surroundings, record_assistant_turn, open_conversation, record_user_turn,
  resolved, Site,
}
use llm_inference_logger.Db.Tables.{Db, Conversation, find_conversation, find_message, Message}
use llm_inference_logger.Db.Conversations.{
  create, ensure_title, require, messages, get, append_message, in_order, earlier_seq,
  of_conversation,
}
use llm_inference_logger.Db.Conversations.Served.{
  Served, Ready, bind-Served, Settles, session-Served, append_message-Served, finish-calm,
  pure-Served,
}
use llm_inference_logger.Db.Conversations.Seq.{IsNumbered, calm, append_message-run}
use llm_inference_logger.Db.Session.{statement, session}
use llm_inference_logger.Db.Conversations.Known.{Knows, ensure_title-Knows, found-id, find-created}
use llm_inference_logger.Domain.Enums.{ConversationStatus, MessageRole}
use llm_inference_logger.Providers.Registry
use llm_inference_logger.Providers.Registry.{resolve_model}
use llm_inference_logger.Providers.Base.{Provider}
use llm_inference_logger.Prelude.Outcome.Runs.{Runs}
use llm_inference_logger.Prelude.Outcome.{ok}
use llm_inference_logger.Chat.Turn.Opens.{Continues}
use llm_inference_logger.Prelude.Order.{order_by}

module _ {P : Type 0} (service : ChatService) (ask : Ask) (s : Surroundings) where
  -- The conversation is there, or its id is free.
  abbrev pub CanOpen : Option ℕ → Db P → Type 0
  CanOpen none db = is_some (find_conversation s.new_conversation db.conversations) ≡ false
  CanOpen (some i) db = Knows i db

  -- Both messages can be written.
  pub record Fresh (db : Db P) : Type 0 where
    pub numbered : IsNumbered db.messages
    pub user : is_some (find_message s.user_id db.messages) ≡ false
    pub assistant : is_some (find_message s.assistant_id db.messages) ≡ false
    pub apart : s.user_id ≢ s.assistant_id

  -- The question is the last message of its conversation, and there is room for the reply.
  pub record Asked (before : Db P) (turn : Conversation × Message × List Message) (db : Db P)
      : Type 0 where
    pub ready : Ready turn.0.id s.assistant_id db
    pub continues : Continues ask.conversation_id turn.0.id
    pub role : turn.1.role ≡ MessageRole.user
    pub content : turn.1.content ≡ ask.content
    pub last : in_order turn.0.id db ≡ in_order turn.0.id before ++ turn.1 ∷ []

  in_order-messages :
      (i : ℕ) (before after : Db P)
      → after.messages ≡ before.messages
      → in_order i after ≡ in_order i before
  in_order-messages i before after e = ap (λ ms. order_by earlier_seq (of_conversation i ms)) e

  created :
      (db : Db P) (now : ℕ)
      → CanOpen none db
      → Fresh db
      → Served
          (create s.new_conversation none)
          db
          now
          (λ conv db'. Ready conv.id s.assistant_id db' × (db'.messages ≡ db.messages))
  unfolding create statement
  created db now h f =
      let row : Conversation = record {
        id = s.new_conversation;
        title = none;
        status = ConversationStatus.active;
        created_at = now;
        updated_at = now;
      } in
      let after : Db P = record db { conversations = db.conversations ++ row ∷ [] } in
      let ready : Ready row.id s.assistant_id after = record {
        numbered = f.numbered;
        known = find-created db.conversations row;
        unused = f.assistant;
      } in
      (row, rw h refl, (after, rw h refl, (ready, refl)))

  required :
      (i : ℕ) (db : Db P) (now : ℕ)
      → Knows i db
      → Fresh db
      → Served (require i) db now (λ conv db'.
        Ready conv.id s.assistant_id db' × (conv.id ≡ i) × (db'.messages ≡ db.messages))
  unfolding require get statement
  required i db now h f = elim (Option-cases (find_conversation i db.conversations)) [
    | inl e ↦ absurd (ground (arith, h, e))
    | inr (c, e) ↦
        let same = found-id i db.conversations c e in
        let ready : Ready c.id s.assistant_id db = record {
          numbered = f.numbered;
          known = subst (λ k. Knows k db) (sym same) h;
          unused = f.assistant;
        } in
        (c, rw e refl, (db, rw e refl, (ready, same, refl)))
  ]

  titled :
      (i : ℕ) (source : Text) (db : Db P) (now : ℕ)
      → Ready i s.assistant_id db
      → Served
          (ensure_title i source)
          db
          now
          (λ _ db'. Ready i s.assistant_id db' × (db'.messages ≡ db.messages))
  unfolding ensure_title statement
  titled i source db now r =
      let after = (ensure_title i source (calm db now)).1.db in
      let ready : Ready i s.assistant_id after = record {
        numbered = r.numbered;
        known = ensure_title-Knows i i source (calm db now) r.known;
        unused = r.unused;
      } in
      (_, refl, (after, refl, (ready, refl)))

  listed : (i : ℕ) (db : Db P) (now : ℕ) → Served (messages i) db now (λ _ db'. db' ≡ db)
  unfolding messages statement
  listed i db now = (_, refl, (db, refl, refl))

  opens :
      (i : Option ℕ) (db : Db P) (now : ℕ)
      → CanOpen i db
      → Fresh db
      → Served (open_conversation service ask s i) db now (λ conv db'.
        Ready conv.id s.assistant_id db' × Continues i conv.id × (db'.messages ≡ db.messages))
  opens none db now h f =
      let (conv, e, (db', c, (ready, same))) = created db now h f in
      (conv, e, (db', c, (ready, tt, same)))
  opens (some i) db now h f = required i db now h f

  -- The first unit of work returns, with the question as the last message of its conversation, and
  -- leaves room for the reply.
  pub record_user_turn-Served :
      (db : Db P) (start : ℕ)
      → CanOpen ask.conversation_id db
      → Fresh db
      → Runs (record_user_turn service ask s) (calm db start) (Settles s.first_now (Asked db))
  unfolding record_user_turn
  record_user_turn-Served db start h f =
      let now = s.first_now in
      session-Served start now _ db (Asked db) (
        bind-Served _ (Asked db) (open_conversation service ask s ask.conversation_id) _ db now
          (opens ask.conversation_id db now h f)
          (λ conv db1 (ready, continues, same).
            let i = conv.id in
            let unused : is_some (find_message s.user_id db1.messages) ≡ false =
              subst (λ ms. is_some (find_message s.user_id ms) ≡ false) (sym same) f.user in
            bind-Served _ (Asked db) (append_message s.user_id i MessageRole.user ask.content) _ db1
              now
              (append_message-Served s.user_id i s.assistant_id MessageRole.user ask.content db1 now
                ready unused f.apart)
              (λ message db2 (r2, row, grown).
                bind-Served _ (Asked db) (ensure_title i ask.content) _ db2 now
                  (titled i ask.content db2 now r2)
                  (λ _ db3 (r3, kept).
                    bind-Served _ (Asked db) (messages i) _ db3 now (listed i db3 now)
                      (λ history db4 unchanged. pure-Served (Asked db) _ db4 now (
                        subst (Asked db _) (sym unchanged) (record {
                          ready = r3;
                          continues = continues;
                          role = ap (λ m. m.role) row;
                          content = ap (λ m. m.content) row;
                          last =
                              in_order-messages i db2 db3 kept
                              ∙ grown
                              ∙ ap (λ ms. ms ++ message ∷ []) (in_order-messages i db db1 same);
                        })))))))

  pub resolved-is :
      (provider model : String) (adapter : Provider) (site : Site P)
      → resolve_model service.registry ask.provider ask.model ≡ ok (provider, model)
      → Registry.get service.registry (some provider) ≡ ok adapter
      → resolved service ask site ≡ (ok (provider, adapter, model), site)
  unfolding resolved
  resolved-is provider model adapter site named found = rw named (rw found refl)

  -- The second one returns.
  pub record_assistant_turn-Served :
      (i : ℕ) (content : Text) (db : Db P) (start : ℕ)
      → IsNumbered db.messages
      → Knows i db
      → is_some (find_message s.assistant_id db.messages) ≡ false
      → (m : Message) × ((record_assistant_turn service ask s i content (calm db start)).0 ≡ ok m)
  unfolding record_assistant_turn session
  record_assistant_turn-Served i content db start numbered known unused =
      let run =
        append_message-run s.assistant_id i MessageRole.assistant content db s.second_now known
          unused numbered in
      let at_rest : (append_message s.assistant_id i MessageRole.assistant content
            (calm db s.second_now)).1
          ≡ calm
              (append_message s.assistant_id i MessageRole.assistant content
                (calm db s.second_now)).1.db
              s.second_now =
        ground (arith, run.2, run.3) in
      (_, ap (λ x. x.0) (finish-calm db _ s.second_now _ _ run.0 at_rest))
