-- ===== src/Tests/Migrating.antt =====
-- Migrations run and reverted on a new database.
use issueflow.Prelude.{◌≡◌, refl, Option, none, some, List, [], ◌∷◌, any, filter, update_where}
use issueflow.Migrations.Sql.{Schema}
use issueflow.Migrations.Sql
use issueflow.Migrations.Sound.{Sound}
use issueflow.Migrations.Sound
use issueflow.Migrations.Steps
use issueflow.Migrations.Steps.{
  Migration, create_users, create_invalidated_tokens, create_projects, create_tickets,
  create_comments, create_audit_log, create_ticket_dependencies, create_attachments,
  add_comment_version, add_soft_delete_to_cascade_children, add_deleted_by_cascade_to_children,
  all_migrations, migrate, revert,
}
use issueflow.Migrations.Mapping.{empty}
use issueflow.Migrations.RoundTrip.{revert-migrate}

abbrev creating : List Migration
creating =
    create_users ∷ create_invalidated_tokens ∷ create_projects ∷ create_tickets ∷ create_comments
    ∷ create_audit_log ∷ create_ticket_dependencies ∷ create_attachments ∷ add_comment_version
    ∷ add_soft_delete_to_cascade_children ∷ add_deleted_by_cascade_to_children ∷ []

abbrev reached : Option Schema → Schema
reached none = empty
reached (some s) = s

abbrev built : Schema
built = reached (migrate creating empty)

empty-Sound : Sound empty
unfolding any Sql.any_column_uses Sql.any_refers Sql.any_refers_column Sql.constrains
    Sql.reads_column Sound.indexed
empty-Sound = record {
  types = λ n u. cc;
  tables = λ n u. cc;
  indexes = λ n u. cc;
  targets = λ n c u. cc;
  constraints = λ n c u. cc;
  columns = λ n c u. cc;
}

revert-migrate_example : revert creating built ≡ some empty
unfolding migrate Sql.run Steps.up Sql.apply Sql.type_taken Sql.has_type any Sql.has_table
    Sql.relation_taken Sql.has_index Sql.string_dec Sql.columns_distinct Sql.column_named
    Sql.all_known Sql.all_fit Sql.all_named Sql.has_column Sql.add_to update_where
revert-migrate_example =
    revert-migrate creating empty {t = built}
      (refl, (refl, (refl, (refl, (refl, (refl, (refl, (refl, (refl, (refl, (refl, tt)))))))))))
      empty-Sound refl

-- The migration that drops a column adds it again as the last one, and all of them together can
-- be taken back.
all_reverted : revert all_migrations (reached (migrate all_migrations empty)) ≡ some empty
unfolding migrate revert Sql.run Steps.up Steps.down Sql.apply Sql.type_taken Sql.has_type any
    Sql.has_table Sql.relation_taken Sql.has_index Sql.string_dec Sql.columns_distinct
    Sql.column_named Sql.all_known Sql.all_fit Sql.all_named Sql.has_column Sql.add_to Sql.drop_from
    Sql.any_column_uses Sql.uses_type Sql.any_refers Sql.any_refers_column Sql.string_in filter
    update_where
all_reverted = refl
