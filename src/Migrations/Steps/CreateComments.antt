-- ===== src/Migrations/Steps/CreateComments.antt =====
-- src/migrations/1700000006000-CreateComments.ts
use issueflow.Prelude.{List, [], ◌∷◌}
use issueflow.Migrations.Sql.{
  int, serial, text, timestamp, now, restrict, primary_key, foreign_key, Table, Statement,
  create_table, drop_table, create_index, drop_index, required, defaulted, index_on, unique_on,
}

abbrev comments : Table
comments = record {
  name = "comments";
  columns =
      required "id" serial
      ∷ required "ticketId" int
      ∷ required "authorId" int
      ∷ required "content" text
      ∷ defaulted "createdAt" timestamp now
      ∷ defaulted "updatedAt" timestamp now
      ∷ [];
  constraints =
      primary_key "PK_comments" "id"
      ∷ foreign_key "FK_comments_ticketId" "ticketId" "tickets" "id" restrict
      ∷ foreign_key "FK_comments_authorId" "authorId" "users" "id" restrict
      ∷ [];
}

abbrev mentions : Table
mentions = record {
  name = "mentions";
  columns = required "id" serial ∷ required "commentId" int ∷ required "userId" int ∷ [];
  constraints =
      primary_key "PK_mentions" "id"
      ∷ foreign_key "FK_mentions_commentId" "commentId" "comments" "id" restrict
      ∷ foreign_key "FK_mentions_userId" "userId" "users" "id" restrict
      ∷ [];
}

abbrev pub up : List Statement
up =
    create_table comments
    ∷ create_index (index_on "IDX_comments_ticketId" "comments" ("ticketId" ∷ []))
    ∷ create_table mentions
    ∷ create_index (unique_on "UQ_mention_comment_user" "mentions" ("commentId" ∷ "userId" ∷ []))
    ∷ []

abbrev pub down : List Statement
down =
    drop_index "UQ_mention_comment_user"
    ∷ drop_table "mentions"
    ∷ drop_index "IDX_comments_ticketId"
    ∷ drop_table "comments"
    ∷ []
