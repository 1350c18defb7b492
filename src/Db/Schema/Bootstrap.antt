-- ===== src/Db/Schema/Bootstrap.antt =====
-- What `create_all` makes of any schema that it finds.
use mathlib.Core.Option
use unith_task.Prelude.{
  ◌≡◌, refl, ◌∙◌, ap, inl, inr, String, true, Option, none, some, List, [], ◌∷◌, ◌++◌, str_eq,
  str_eq_iff, if◌then◌else◌, arith, Option-cases, Bool-cases,
}
use unith_task.Prelude.Result.{ok}
use unith_task.Db.Schema.{
  Schema, columns_of, has_column, metadata, with_column, alter_table, migrate, apply_migrations,
  create_all,
}

-- What SQLAlchemy documents of `MetaData.create_all`: it creates the tables that are missing, and
-- leaves those that exist as they are.
pub record IsCreateTables (create_tables : Schema → Schema → Schema) : Type 0 where
  pub existing :
      (m schema : Schema) (t : String) (cs : List String)
      → columns_of t schema ≡ some cs
      → columns_of t (create_tables m schema) ≡ some cs
  pub missing :
      (m schema : Schema) (t : String)
      → columns_of t schema ≡ none
      → columns_of t (create_tables m schema) ≡ columns_of t m

columns_of-alter_table :
    (t c u : String) (schema : Schema)
    → columns_of u (alter_table t c schema)
      ≡ Option.map (λ cs. if str_eq u t then with_column c cs else cs) (columns_of u schema)
unfolding columns_of alter_table
columns_of-alter_table t c u [] = refl
columns_of-alter_table t c u ((x, cs) ∷ rest) = elim (Bool-cases (str_eq x u)) [
  | inl hit ↦ ground (arith, hit, (str_eq_iff x u).0 hit)
  | inr miss ↦ ground (arith, miss, columns_of-alter_table t c u rest)
]

has_column-append : (c : String) (cs : List String) → has_column c (cs ++ c ∷ []) ≡ true
has_column-append c [] = rw ((str_eq_iff c c).1 refl) refl
has_column-append c (d ∷ ds) = rw (has_column-append c ds) (ground arith)

has_column-with_column : (c : String) (cs : List String) → has_column c (with_column c cs) ≡ true
has_column-with_column c cs = elim (Bool-cases (has_column c cs)) [
  | inl there ↦ rw there there
  | inr new ↦ rw new (has_column-append c cs)
]

-- The columns of a table behind the bootstrap.
abbrev pub expected : String → Schema → Option (List String)
expected t schema =
    Option.map (λ cs. if str_eq t "idempotency_keys" then with_column "reconcile_count" cs else cs)
      (elim (columns_of t schema) [ some cs ↦ some cs | none ↦ columns_of t metadata ])

module _ (create_tables : Schema → Schema → Schema) (law : IsCreateTables create_tables) where
  created-columns :
      (t : String) (schema : Schema)
      → columns_of t (create_tables metadata schema)
        ≡ elim (columns_of t schema) [ some cs ↦ some cs | none ↦ columns_of t metadata ]
  created-columns t schema = elim (Option-cases (columns_of t schema)) [
    | inl gone ↦ law.missing metadata schema t gone ∙ rw gone refl
    | inr (cs, there) ↦ law.existing metadata schema t cs there ∙ rw there refl
  ]

  -- The table that the migration alters is there.
  keys_there :
      (schema : Schema)
      → (cs : List String) × (columns_of "idempotency_keys" (create_tables metadata schema)
          ≡ some cs)
  unfolding columns_of str_eq
  keys_there schema = elim (Option-cases (columns_of "idempotency_keys" schema)) [
    | inl gone ↦ (_, law.missing metadata schema "idempotency_keys" gone)
    | inr (cs, there) ↦ (cs, law.existing metadata schema "idempotency_keys" cs there)
  ]

  create_all_ok :
      (schema : Schema)
      → create_all create_tables schema
        ≡ (ok tt, alter_table "idempotency_keys" "reconcile_count" (create_tables metadata schema))
  unfolding create_all apply_migrations migrate
  create_all_ok schema =
      let (cs, there) = keys_there schema in rw (there, create_all, apply_migrations, migrate) refl

  create_all-columns :
      (schema : Schema) (t : String)
      → let (r, schema') = create_all create_tables schema in
        (r ≡ ok tt) × (columns_of t schema' ≡ expected t schema)
  create_all-columns schema t = rw (create_all_ok schema) (
    refl,
    columns_of-alter_table "idempotency_keys" "reconcile_count" t (create_tables metadata schema)
        ∙ ap (Option.map _) (created-columns t schema),
  )

  settles_once :
      (t : String) (cs : List String)
      → let f : List String → List String =
          λ ds. if str_eq t "idempotency_keys" then with_column "reconcile_count" ds else ds in
        f (f cs) ≡ f cs
  settles_once t cs = elim (Bool-cases (str_eq t "idempotency_keys")) [
    | inl hit ↦ rw hit (rw (has_column-with_column "reconcile_count" cs) refl)
    | inr miss ↦ rw miss refl
  ]

  expected_twice :
      (schema next : Schema) (t : String)
      → columns_of t next ≡ expected t schema
      → expected t next ≡ columns_of t next
  expected_twice schema next t e = elim (Option-cases (columns_of t schema)) [
    | inr (cs, there) ↦ rw (e, there) (ap some (settles_once t cs))
    | inl gone ↦ elim (Option-cases (columns_of t metadata)) [
      | inr (cs, there) ↦ rw (e, gone, there) (ap some (settles_once t cs))
      | inl none_there ↦ rw (e, gone, none_there) (rw none_there refl)
    ]
  ]

  -- On any schema, empty, of an older release or up to date, the bootstrap succeeds. It creates the
  -- missing tables, gives an `idempotency_keys` without it the column `reconcile_count`, and leaves
  -- the other tables as they were. Each start runs it again; from the second time on it changes no
  -- table.
  pub create_all_twice :
      (schema : Schema) (t : String)
      → let (r, first) = create_all create_tables schema in
        let (r', second) = create_all create_tables first in
        (r ≡ ok tt)
        × (columns_of t first ≡ expected t schema)
        × (r' ≡ ok tt)
        × (columns_of t second ≡ columns_of t first)
  create_all_twice schema t =
      let first = (create_all create_tables schema).1 in
      let (done, columns) = create_all-columns schema t in
      let (fine, after) = create_all-columns first t in
      (done, columns, fine, after ∙ expected_twice schema first t columns)
