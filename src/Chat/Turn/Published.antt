-- ===== src/Chat/Turn/Published.antt =====
-- The events of a streamed turn name a conversation that the turn has committed.
use llm_inference_logger.Prelude.{
  ℕ, String, ◌≡◌, refl, sym, ap, ◌∙◌, subst, Bool, true, false, some, List, [], ◌∷◌, ◌++◌,
  append-nil, if◌then◌else◌, All,
}
use llm_inference_logger.Providers.Registry
use llm_inference_logger.Providers.Registry.{resolve_model}
use llm_inference_logger.Chat.Turn.{
  Turn, ChatService, Ask, Surroundings, record_user_turn, record_assistant_turn, stream, conclude,
  converse, resolved, Site, after_resolve, after_user_turn, traced, request_of, parts_of, send,
  complete_logged, ChatResult, on_conn,
}
use llm_inference_logger.Prelude.Outcome.{continue, Result, ok, err, >>=-cases, ◌>>=◌, pure}
use llm_inference_logger.Db.Tables.{Db, Conversation, Message}
use llm_inference_logger.Domain.Event.{InferenceEvent, is_valid}
use llm_inference_logger.Core.Errors.{Exn, app, other}
use llm_inference_logger.Db.Session.{Conn}
use llm_inference_logger.Db.Conversations.Known.{Knows}
use llm_inference_logger.Instrumentation.Wrapper.{stream_chat, build_event}
use llm_inference_logger.Providers.Base.{Provider, ChatRequest}
use llm_inference_logger.Chat.Turn.Opens.{
  record_user_turn-OpensKnown, OpensKnown, record_assistant_turn-Knows, id_of_turn, conclude-Knows,
  opened,
}

-- The event names a conversation that is in the tables.
abbrev pub NamesKnown : {P : Type 0} → Db P → InferenceEvent → Type 0
NamesKnown db e = (i : ℕ) × (e.conversation_id ≡ some i) × Knows i db

module _ {P : Type 0} (service : ChatService) (ask : Ask) (s : Surroundings) where
  traced-names :
      (adapter : Provider) (i : ℕ) (streamed : Bool) (request : ChatRequest) (db : Db P)
      → Knows i db
      → All (NamesKnown db) (traced service s adapter i streamed request).published
  unfolding stream_chat build_event
  traced-names adapter i streamed request db h = published_if (is_valid _) _ (i, refl, h)
    where
      published_if :
          (b : Bool) (e : InferenceEvent)
          → NamesKnown db e
          → All (NamesKnown db) (if b then e ∷ [] else [])
      published_if true e k = (k, tt)
      published_if false e k = tt

  -- What a turn has published besides.
  record Adds (site after : Site P) : Type 0 where
    pub new : List InferenceEvent
    pub more : after.published ≡ site.published ++ new
    pub named : All (NamesKnown after.conn.db) new

  Adds-none : (site after : Site P) → after.published ≡ site.published → Adds site after
  Adds-none site after e = record { new = []; more = e ∙ sym (append-nil _); named = tt }

  Adds-from : (before site after : Site P) → before ≡ site → Adds before after → Adds site after
  Adds-from before site after e a = subst (λ y. Adds y after) e a

  after_user_turn-Adds :
      (n : String) (p : Provider) (m : String) (site : Site P)
      (x : Result Exn (Conversation × Message × List Message) × Conn P)
      → OpensKnown id_of_turn x
      → Adds site (after_user_turn service ask s n p m (x.0, record site { conn = x.1 })).1
  unfolding converse
  after_user_turn-Adds n p m site (ok turn, c) h =
      let i = turn.0.id in
      let t = traced service s p i true (request_of service.settings p m turn.2) in
      let after = conclude service ask s i (parts_of t.yielded) t.ending c in
      let known = conclude-Knows service ask s i i (parts_of t.yielded) t.ending c h in
      record { new = t.published; more = refl; named = traced-names p i true _ after.2.db known }
  after_user_turn-Adds n p m site (err (app e), c) h = Adds-none site _ refl
  after_user_turn-Adds n p m site (err Exn.cancelled, c) h = Adds-none site _ refl
  after_user_turn-Adds n p m site (err Exn.generator_exit, c) h = Adds-none site _ refl
  after_user_turn-Adds n p m site (err (other k t), c) h = Adds-none site _ refl

  after_resolve-Adds :
      (site : Site P) (x : Result Exn (String × Provider × String) × Site P)
      → x.1 ≡ site
      → Adds site (after_resolve service ask s x).1
  after_resolve-Adds site (ok (n, p, m), site') e =
      subst (λ y. Adds y (after_resolve service ask s (ok (n, p, m), site')).1) e
        (after_user_turn-Adds n p m site' (record_user_turn service ask s site'.conn)
          (record_user_turn-OpensKnown service ask s site'.conn))
  after_resolve-Adds site (err e', site') e =
      subst (λ y. Adds y site') e (Adds-none site' site' refl)

  continue-site :
      {A B : Type 0} (r : Result Exn A) (f : A → Turn P B) (site : Site P)
      → ((a : A) → (f a site).1 ≡ site)
      → (continue r f site).1 ≡ site
  continue-site (ok a) f site h = h a
  continue-site (err e) f site h = refl

  -- Finding the provider touches nothing.
  resolved-site : (site : Site P) → (resolved service ask site).1 ≡ site
  unfolding resolved
  resolved-site site =
      continue-site (resolve_model service.registry ask.provider ask.model) _ site (λ named.
        continue-site (Registry.get service.registry (some named.0)) _ site (λ adapter. refl))

  -- The reply of a plain turn, and its storing.
  replied-Adds :
      (p : Provider) (i : ℕ) (request : ChatRequest) (result : Message → ChatResult) (site : Site P)
      (c : Conn P)
      → Knows i c.db
      → Adds site
          ((complete_logged (traced service s p i false request) >>= λ response.
              on_conn (record_assistant_turn service ask s i response.text) >>= λ reply.
              pure (result reply))
            (record site { conn = c })).1
  unfolding complete_logged
  replied-Adds p i request result site c h =
      let t = traced service s p i false request in
      >>=-cases (complete_logged t) _ (record site { conn = c }) (λ x. Adds site x.1)
        (λ e r. record { new = t.published; more = refl; named = traced-names p i false _ c.db h })
        (λ response r.
          let after = (record_assistant_turn service ask s i response.text c).1 in
          let known = record_assistant_turn-Knows service ask s i i response.text c h in
          let adds : (q : List InferenceEvent)
              → q ≡ site.published ++ t.published
              → Adds site (record site { conn = after; published = q }) =
            λ q e. record {
              new = t.published;
              more = e;
              named = traced-names p i false _ after.db known;
            } in
          >>=-cases (on_conn (record_assistant_turn service ask s i response.text)) _ _
            (λ x. Adds site x.1) (λ e r. adds _ refl) (λ reply r. adds _ refl))

  asked-Adds :
      (p : Provider) (model : String)
      (result : Conversation × Message × List Message → Message → ChatResult) (site : Site P)
      → Adds site
          ((on_conn (record_user_turn service ask s) >>= λ turn.
              complete_logged
                (traced service s p turn.0.id false (request_of service.settings p model turn.2))
              >>= λ response.
                  on_conn (record_assistant_turn service ask s turn.0.id response.text) >>= λ reply.
                  pure (result turn reply))
            site).1
  asked-Adds p model result site =
      >>=-cases (on_conn (record_user_turn service ask s)) _ site (λ x. Adds site x.1)
        (λ e r. Adds-none site _ refl)
        (λ turn r.
          replied-Adds p turn.0.id (request_of service.settings p model turn.2) _ site _
            (opened id_of_turn _ turn (record_user_turn-OpensKnown service ask s site.conn) r))

  send-Adds : (site : Site P) → Adds site (send service ask s site).1
  unfolding send
  send-Adds site =
      let keeps = resolved-site site in
      >>=-cases (resolved service ask) _ site (λ x. Adds site x.1)
        (λ e r. Adds-none site _ (ap (λ x. x.published) keeps))
        (λ found r.
          let result : Conversation × Message × List Message → Message → ChatResult = λ turn reply.
            record {
              conversation = turn.0;
              user_message = turn.1;
              assistant_message = reply;
              provider = found.0;
              model = found.2;
            } in
          Adds-from _ site _ keeps
            (asked-Adds found.1 found.2 result (resolved service ask site).1))

  -- Whatever the database and the provider do, what a streamed or a plain turn publishes is behind
  -- what was published before, and every event of it names a conversation that is in the tables when
  -- the turn ends.
  pub turns-NamesKnown :
      (site : Site P)
      → ((new : List InferenceEvent) × ((stream service ask s site).1.published
            ≡ site.published ++ new)
          × All (NamesKnown (stream service ask s site).1.conn.db) new)
        × ((new : List InferenceEvent) × ((send service ask s site).1.published
              ≡ site.published ++ new)
            × All (NamesKnown (send service ask s site).1.conn.db) new)
  unfolding stream
  turns-NamesKnown site =
      let a = after_resolve-Adds site (resolved service ask site) (resolved-site site) in
      let b = send-Adds site in ((a.new, a.more, a.named), (b.new, b.more, b.named))
