-- ===== src/Server/Directory/Schema/Preparation.antt =====
-- What `prepare_database` leaves behind, from an empty file, an old one and a prepared one.
use phantasma.Prelude.{
  ℕ, suc, Text, ◌≡◌, refl, ◌⊎◌, inl, inr, String, true, none, some, List, [], ◌∷◌, ◌++◌, arith, ok,
  pure, ◌>>◌, string_eq, if◌then◌else◌, all,
}
use phantasma.Server.Sqlite.{Database, Sqlite, Sql, run}
use phantasma.Server.Directory.Schema.{
  contains, key_columns, missing, create_queued_messages, create_index, add_column_if_missing,
  prepare_database,
}

-- The tables have what the statements of directory.rs name.
pub record IsReady (db : Database) : Type 0 where
  pub keys : missing key_columns db.columns ≡ none
  pub queue : db.has_queue ≡ true

-- No table yet, or a table with the two columns that every version had.
abbrev pub IsUpgradable : Database → Type 0
IsUpgradable db =
    (db.columns ≡ none)
    ⊎ ((cs : List String) × (db.columns ≡ some cs)
        × (contains "username" cs ≡ true)
        × (contains "updated_at" cs ≡ true))

contains-append_left :
    (name : String) (cs ds : List String)
    → contains name cs ≡ true
    → contains name (cs ++ ds) ≡ true
unfolding contains
contains-append_left name [] ds h = absurd (cc)
contains-append_left name (c ∷ cs) ds h = ground (arith, contains-append_left name cs ds)

contains-append_self : (name : String) (cs : List String) → contains name (cs ++ name ∷ []) ≡ true
unfolding contains
contains-append_self name [] = ground arith
contains-append_self name (c ∷ cs) = ground (arith, contains-append_self name cs)

missing-key_columns :
    (cs : List String)
    → contains "username" cs ≡ true
    → contains "identity_public_key" cs ≡ true
    → contains "encryption_public_key" cs ≡ true
    → contains "updated_at" cs ≡ true
    → missing key_columns (some cs) ≡ none
unfolding all
missing-key_columns cs a b c d = ground arith

abbrev extended : String → List String → List String
extended name cs = if contains name cs then cs else cs ++ name ∷ []

contains-extended_self :
    (name : String) (cs : List String) → contains name (extended name cs) ≡ true
contains-extended_self name cs = ground (arith, contains-append_self name cs)

contains-extended :
    (a name : String) (cs : List String)
    → contains a cs ≡ true
    → contains a (extended name cs) ≡ true
contains-extended a name cs h = ground (arith, contains-append_left a cs (name ∷ []))

ready-extended :
    (cs : List String)
    → contains "username" cs ≡ true
    → contains "updated_at" cs ≡ true
    → missing key_columns
        (some (extended "encryption_public_key" (extended "identity_public_key" cs)))
      ≡ none
ready-extended cs a b =
    missing-key_columns _ (twice "username" a)
      (contains-extended "identity_public_key" "encryption_public_key" _
        (contains-extended_self "identity_public_key" cs))
      (contains-extended_self "encryption_public_key" _) (twice "updated_at" b)
  where
    twice :
        (name : String)
        → contains name cs ≡ true
        → contains name (extended "encryption_public_key" (extended "identity_public_key" cs))
          ≡ true
    twice name h =
        contains-extended name "encryption_public_key" _
          (contains-extended name "identity_public_key" cs h)

ready-fresh :
    missing key_columns
      (some (extended "encryption_public_key" (extended "identity_public_key" key_columns)))
    ≡ none
unfolding contains string_eq
ready-fresh = ready-extended key_columns refl refl

module _ (q : Sqlite) (works : (n : ℕ) → q.fault n ≡ none) where
  add_column_if_missing-ok :
      (name : String) (default : Text) (db : Database) (cs : List String)
      → db.columns ≡ some cs
      → let (r, db') = add_column_if_missing q name default db in
        (r ≡ ok tt)
        × (db'.columns ≡ some (extended name cs))
        × (db'.queued_messages ≡ db.queued_messages)
  unfolding add_column_if_missing run
  add_column_if_missing-ok name default db cs e =
      ground (arith, works db.statements, works (suc db.statements))

  upgrade : Sql Unit
  upgrade = do
    add_column_if_missing q "identity_public_key" []
    add_column_if_missing q "encryption_public_key" []
    run q create_queued_messages
    run q create_index
    pure tt

  upgrade-ok :
      (db : Database) (cs : List String)
      → db.columns ≡ some cs
      → let (r, db') = upgrade db in
        (r ≡ ok tt)
        × (db'.columns
            ≡ some (extended "encryption_public_key" (extended "identity_public_key" cs)))
        × (db'.has_queue ≡ true)
        × (db'.has_index ≡ true)
        × (db'.queued_messages ≡ db.queued_messages)
  unfolding upgrade run
  upgrade-ok db cs e =
      let db₁ = (add_column_if_missing q "identity_public_key" [] db).1 in
      let db₂ = (add_column_if_missing q "encryption_public_key" [] db₁).1 in
      ground (
        arith,
        add_column_if_missing-ok "identity_public_key" [] db cs e,
        add_column_if_missing-ok "encryption_public_key" [] db₁ (extended "identity_public_key" cs),
        works db₂.statements,
        works (suc db₂.statements),
      )

  -- If no statement fails, `prepare_database` on an empty file or on the tables of an older
  -- version succeeds: the tables and the index are ready, and the queued messages are as they
  -- were.
  pub prepare_database-IsReady :
      (db : Database)
      → IsUpgradable db
      → let (r, db') = prepare_database q db in
        (r ≡ ok tt)
        × IsReady db'
        × (db'.has_index ≡ true)
        × (db'.queued_messages ≡ db.queued_messages)
  unfolding prepare_database run upgrade
  prepare_database-IsReady db (inl e) = ground (
    arith,
    works db.statements,
    ready-fresh,
    upgrade-ok
        (record db { columns = some key_columns; public_keys = []; statements = suc db.statements })
        key_columns refl,
  )
  prepare_database-IsReady db (inr (cs, e, a, b)) = ground (
    arith,
    works db.statements,
    ready-extended cs a b,
    upgrade-ok (record db { statements = suc db.statements }) cs e,
  )

-- On tables that are ready, whatever fails on the way, `prepare_database` changes no row and no
-- column, and the tables are still ready.
pub prepare_database_again :
    (q : Sqlite) (db : Database)
    → IsReady db
    → let db' = (prepare_database q db).1 in
      (db'.columns ≡ db.columns)
      × (db'.public_keys ≡ db.public_keys)
      × (db'.queued_messages ≡ db.queued_messages)
      × (db'.last_id ≡ db.last_id)
      × IsReady db'
unfolding prepare_database add_column_if_missing run all
prepare_database_again q db h = ground arith
