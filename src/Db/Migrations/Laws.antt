-- ===== src/Db/Migrations/Laws.antt =====
-- The first migration creates what the models declare, and its downgrade takes exactly that away.
use llm_inference_logger.Prelude.{String, ◌≡◌, refl, false, none, some, List, [], ◌∷◌, ◌++◌, All}
use llm_inference_logger.Db.Migrations.{Table, Schema, run, taken, any, references}
use llm_inference_logger.Db.Migrations.Initial.{upgrade, downgrade}
use mathlib.Core.List.Perm
use mathlib.Core.List.{Perm, perm_middle}
use llm_inference_logger.Db.Migrations.Declared.{metadata}

-- The names that the migration gives, and its tables.
abbrev given_names : List String
given_names =
    "conversations" ∷ "pk_conversations" ∷ "ix_conversations_updated_at" ∷ "events_raw"
    ∷ "pk_events_raw" ∷ "ix_events_raw_unprocessed" ∷ "messages" ∷ "pk_messages"
    ∷ "uq_messages_conversation_id_seq" ∷ "ix_messages_conversation_id_seq" ∷ "inference_logs"
    ∷ "pk_inference_logs" ∷ "ix_inference_logs_conversation_id" ∷ "ix_inference_logs_errors"
    ∷ "ix_inference_logs_provider_model_started_at" ∷ "ix_inference_logs_started_at" ∷ []

abbrev table_names : List String
table_names = "conversations" ∷ "events_raw" ∷ "messages" ∷ "inference_logs" ∷ []

-- A schema that knows nothing of the four tables.
abbrev pub IsApart : Schema → Type 0
IsApart s =
    All (λ n. taken n s ≡ false) given_names × All (λ n. any (references n) s ≡ false) table_names

-- Two descriptions of one table: checks and indexes have no order.
pub record SameTable (a b : Table) : Type 0 where
  same_name : a.name ≡ b.name
  same_columns : a.columns ≡ b.columns
  same_primary_key : a.primary_key ≡ b.primary_key
  same_foreign_keys : a.foreign_keys ≡ b.foreign_keys
  same_checks : Perm a.checks b.checks
  same_uniques : a.uniques ≡ b.uniques
  same_indexes : Perm a.indexes b.indexes

abbrev pub SameTables : List Table → List Table → Type 0
SameTables [] [] = Unit
SameTables (a ∷ as_) (b ∷ bs) = SameTable a b × SameTables as_ bs
SameTables _ _ = ⊥

created : List Table
created = elim (run upgrade []) [ some ts ↦ ts | none ↦ [] ]

upgrade-created : (s : Schema) → IsApart s → run upgrade s ≡ some (created ++ s)
unfolding run upgrade created
upgrade-created s (h, k) =
    simp
      (
        h.0, h.1.0, h.1.1.0, h.1.1.1.0, h.1.1.1.1.0, h.1.1.1.1.1.0, h.1.1.1.1.1.1.0,
        h.1.1.1.1.1.1.1.0, h.1.1.1.1.1.1.1.1.0, h.1.1.1.1.1.1.1.1.1.0, h.1.1.1.1.1.1.1.1.1.1.0,
        h.1.1.1.1.1.1.1.1.1.1.1.0, h.1.1.1.1.1.1.1.1.1.1.1.1.0, h.1.1.1.1.1.1.1.1.1.1.1.1.1.0,
        h.1.1.1.1.1.1.1.1.1.1.1.1.1.1.0, h.1.1.1.1.1.1.1.1.1.1.1.1.1.1.1.0,
      )
      refl

downgrade-created : (s : Schema) → IsApart s → run downgrade (created ++ s) ≡ some s
unfolding run upgrade downgrade created
downgrade-created s (h, k) = simp (k.0, k.1.0, k.1.1.0, k.1.1.1.0) refl

-- The two orders in which the checks and the indexes of `inference_logs` stand.
module _ {A : Type 0} where
  perm_checks : (a b c d e : A) → Perm (a ∷ b ∷ c ∷ d ∷ e ∷ []) (e ∷ c ∷ a ∷ d ∷ b ∷ [])
  perm_checks a b c d e = Perm.trans (perm_middle (a ∷ b ∷ c ∷ d ∷ []) []) (
      Perm.cons e (
        Perm.trans (perm_middle (a ∷ b ∷ []) (d ∷ []))
          (Perm.cons c (Perm.cons a (perm_middle (b ∷ []) [])))))

  perm_indexes : (a b c d : A) → Perm (a ∷ b ∷ c ∷ d ∷ []) (d ∷ c ∷ b ∷ a ∷ [])
  perm_indexes a b c d = Perm.trans (perm_middle (a ∷ b ∷ c ∷ []) []) (
      Perm.cons d
        (Perm.trans (perm_middle (a ∷ b ∷ []) []) (Perm.cons c (perm_middle (a ∷ []) []))))

-- A table that is written twice in one way.
SameTable-refl : (t : Table) → SameTable t t
SameTable-refl t = record {
  same_name = refl;
  same_columns = refl;
  same_primary_key = refl;
  same_foreign_keys = refl;
  same_checks = Perm.refl t.checks;
  same_uniques = refl;
  same_indexes = Perm.refl t.indexes;
}

created-SameTables : SameTables metadata created
unfolding created metadata run upgrade
created-SameTables = (
  record {
    same_name = refl;
    same_columns = refl;
    same_primary_key = refl;
    same_foreign_keys = refl;
    same_checks = perm_checks _ _ _ _ _;
    same_uniques = refl;
    same_indexes = perm_indexes _ _ _ _;
  },
  (SameTable-refl _, (SameTable-refl _, (SameTable-refl _, tt))),
)

-- On a schema in which none of the migration's names is taken and no table references one of its
-- tables, every statement of `upgrade` is accepted, and the tables it adds, newest first, are those
-- that the models declare: the same names, columns, keys and unique constraints, and the same
-- checks and indexes in some order. `downgrade` is then accepted too, and gives back the schema.
pub upgrade-downgrade :
    (s : Schema)
    → IsApart s
    → (added : List Table) × (run upgrade s ≡ some (added ++ s))
      × SameTables metadata added
      × (run downgrade (added ++ s) ≡ some s)
upgrade-downgrade s h = (created, upgrade-created s h, created-SameTables, downgrade-created s h)
