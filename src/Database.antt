-- ===== src/Database.antt =====
-- The constructors of `ArchiveDB` and `UserDB` and `databaseFile` (DB.h, DB.cpp). The file system, the
-- conversions of paths and SQLite are parameters with their documented behaviour.
pub mod Schemas
pub mod Atomic
pub mod Tests
use suda_gureum.Base.{
  ℕ, ◌≡◌, ◌⊎◌, inl, inr, Bool, true, false, not, ◌||◌, List, [], ◌∷◌, ◌++◌, Option, none, some,
  if◌then◌else◌, Bytes, bytes_eq, codes, map, leb, ◌&&◌, ◌+◌,
}
use suda_gureum.Base.Result.{Exception, runtime_error}
use suda_gureum.Configure.{ConfigureMap, get}
use suda_gureum.Log.{value_or}

pub data ColumnType : Type 0 where
  integer text : ColumnType

pub data Constraint : Type 0 where
  nullable not_null primary_key_autoincrement : Constraint

pub record Column : Type 0 where
  pub name : Bytes
  pub column_type : ColumnType
  pub constraint : Constraint

-- `CREATE TABLE IF NOT EXISTS`, and `CREATE INDEX IF NOT EXISTS` with the table and the columns, each
-- with whether it is descending.
pub data Statement : Type 0 where
  create_table : Bytes → List Column → Statement
  create_index : Bytes → Bytes → List (Bytes × Bool) → Statement

abbrev pub name_of : Statement → Bytes
name_of (create_table name columns) = name
name_of (create_index name table columns) = name

-- The tables and indexes of a database, as they were created.
abbrev pub Schema : Type 0
Schema = List Statement

abbrev pub lower : ℕ → ℕ
lower c = if leb b'A' c && leb c b'Z' then c + 32 else c

-- SQLite takes names without regard to the case of the letters of ASCII.
abbrev pub same_name : Bytes → Bytes → Bool
same_name a b = bytes_eq (map lower a) (map lower b)

abbrev pub has_name : Bytes → Schema → Bool
has_name name [] = false
has_name name (object ∷ schema) = same_name name (name_of object) || has_name name schema

abbrev pub create_if_not_exists : Statement → Schema → Schema
create_if_not_exists statement schema =
    if has_name (name_of statement) schema then schema else schema ++ statement ∷ []

-- What the constructors call. `schema` is what is committed to a file, `pending` what the open
-- transaction of its connection sees. A call that throws leaves the exception.
pub record Outside : Type 1 where
  pub World : Type 0
  pub FilePath : Type 0
  pub decode_utf8 : Bytes → Exception ⊎ FilePath
  pub file_in : FilePath → Bytes → Exception ⊎ Bytes
  pub create_directories : FilePath → World → (Bool × Option Bytes) × World
  pub schema : Bytes → World → Schema
  pub pending : Bytes → World → Schema
  pub in_transaction : Bytes → World → Bool
  pub open_file : Bytes → World → Option Exception × World
  pub begin : Bytes → World → Option Exception × World
  pub exec : Statement → Bytes → World → Option Exception × World
  pub commit : Bytes → World → Option Exception × World
  pub rollback : Bytes → World → World
  pub close : Bytes → World → World
  pub create_directories_lem :
      (path : FilePath) (file : Bytes) (w : World)
      → schema file (create_directories path w).1 ≡ schema file w
  -- A connection that was opened has no transaction. `BEGIN` opens one or throws.
  pub open_lem : (file : Bytes) (w : World) → schema file (open_file file w).1 ≡ schema file w
  pub open_idle_lem : (file : Bytes) (w : World) → in_transaction file (open_file file w).1 ≡ false
  pub begin_lem :
      (file : Bytes) (w : World)
      → in_transaction file w ≡ false
      → schema file (begin file w).1 ≡ schema file w
  pub begun_lem :
      (file : Bytes) (w : World)
      → in_transaction file w ≡ false
      → (begin file w).0 ≡ none
      → (in_transaction file (begin file w).1 ≡ true)
        × (pending file (begin file w).1 ≡ schema file w)
  pub begin_thrown_lem :
      (file : Bytes) (w : World) (e : Exception)
      → in_transaction file w ≡ false
      → (begin file w).0 ≡ some e
      → in_transaction file (begin file w).1 ≡ false
  -- Within a transaction a statement commits nothing; without one nothing is promised.
  pub exec_lem :
      (st : Statement) (file : Bytes) (w : World)
      → in_transaction file w ≡ true
      → schema file (exec st file w).1 ≡ schema file w
  pub executed_lem :
      (st : Statement) (file : Bytes) (w : World)
      → in_transaction file w ≡ true
      → (exec st file w).0 ≡ none
      → (in_transaction file (exec st file w).1 ≡ true)
        × (pending file (exec st file w).1 ≡ create_if_not_exists st (pending file w))
  pub commit_lem :
      (file : Bytes) (w : World)
      → in_transaction file w ≡ true
      → (commit file w).0 ≡ none
      → (in_transaction file (commit file w).1 ≡ false)
        × (schema file (commit file w).1 ≡ pending file w)
  pub commit_thrown_lem :
      (file : Bytes) (w : World) (e : Exception)
      → in_transaction file w ≡ true
      → (commit file w).0 ≡ some e
      → schema file (commit file w).1 ≡ schema file w
  pub rollback_lem :
      (file : Bytes) (w : World)
      → (in_transaction file (rollback file w) ≡ false)
        × (schema file (rollback file w) ≡ schema file w)
  -- Closing a connection with no transaction.
  pub close_lem :
      (file : Bytes) (w : World)
      → in_transaction file w ≡ false
      → (in_transaction file (close file w) ≡ false) × (schema file (close file w) ≡ schema file w)

module _ (o : Outside) where
  abbrev pub and_then :
      Option Exception × o.World
      → (o.World → Option Exception × o.World)
      → Option Exception × o.World
  and_then (none, w) rest = rest w
  and_then (some e, w) rest = (some e, w)

  -- The destructor of what an exception leaves.
  abbrev pub on_exception :
      (o.World → o.World) → Option Exception × o.World → Option Exception × o.World
  on_exception undo (none, w) = (none, w)
  on_exception undo (some e, w) = (some e, undo w)

  abbrev pub made :
      o.FilePath → Bytes → (Bool × Option Bytes) × o.World → (Exception ⊎ Bytes) × o.World
  made path db_name ((true, ec), w) = (o.file_in path (db_name ++ codes ".db"), w)
  made path db_name ((false, none), w) = (o.file_in path (db_name ++ codes ".db"), w)
  made path db_name ((false, some message), w) =
      (inl (runtime_error (codes "cannot create data directory: " ++ message)), w)

  abbrev pub on_data_path : Bytes → Exception ⊎ o.FilePath → o.World → (Exception ⊎ Bytes) × o.World
  on_data_path db_name (inl e) w = (inl e, w)
  on_data_path db_name (inr path) w = made path db_name (o.create_directories path w)

  -- `databaseFile`
  pub database_file : ConfigureMap → Bytes → o.World → (Exception ⊎ Bytes) × o.World
  database_file conf db_name w =
      on_data_path db_name
        (o.decode_utf8 (value_or (get (codes "data_path") conf) (codes "./Data"))) w

  unfoldable pub exec_all : List Statement → Bytes → o.World → Option Exception × o.World
  exec_all [] file w = (none, w)
  exec_all (st ∷ sts) file w = and_then (o.exec st file w) (λ v. exec_all sts file v)

  -- Within the transaction; without the commit its destructor rolls back.
  pub run_transaction : List Statement → Bytes → o.World → Option Exception × o.World
  unfolding exec_all
  run_transaction sts file w =
      on_exception (o.rollback file) (and_then (exec_all sts file w) (o.commit file))

  -- `db_` is closed when the body throws.
  pub set_up : List Statement → Bytes → o.World → Option Exception × o.World
  unfolding run_transaction
  set_up sts file w =
      and_then (o.open_file file w)
        (λ v. on_exception (o.close file) (and_then (o.begin file v) (run_transaction sts file)))

  abbrev pub on_file : List Statement → (Exception ⊎ Bytes) × o.World → Option Exception × o.World
  on_file sts (inl e, w) = (some e, w)
  on_file sts (inr file, w) = set_up sts file w

  pub construct : Bytes → List Statement → ConfigureMap → o.World → Option Exception × o.World
  unfolding database_file set_up
  construct db_name sts conf w = on_file sts (database_file conf db_name w)

abbrev idx : Column
idx = record { name = codes "idx"; column_type = integer; constraint = primary_key_autoincrement }

abbrev column : Bytes → ColumnType → Constraint → Column
column name column_type constraint = record {
  name = name;
  column_type = column_type;
  constraint = constraint;
}

abbrev pub archive_statements : List Statement
archive_statements =
    create_table (codes "Log") (
      idx
      ∷ column (codes "userId") text not_null
      ∷ column (codes "serverName") text not_null
      ∷ column (codes "channel") text not_null
      ∷ column (codes "logTime") integer not_null
      ∷ column (codes "nickname") text nullable
      ∷ column (codes "logType") integer not_null
      ∷ column (codes "message") text nullable
      ∷ [])
    ∷ create_index (codes "LogIndex") (codes "Log") (
        (codes "userId", false)
        ∷ (codes "serverName", false)
        ∷ (codes "channel", false)
        ∷ (codes "logTime", true)
        ∷ [])
    ∷ []

abbrev pub user_statements : List Statement
user_statements =
    create_table (codes "User") (
      idx
      ∷ column (codes "userId") text not_null
      ∷ column (codes "passwordHash") text not_null
      ∷ [])
    ∷ create_index (codes "UserIndex") (codes "User") ((codes "userId", false) ∷ [])
    ∷ create_table (codes "UserServer") (
        idx
        ∷ column (codes "userIdx") integer not_null
        ∷ column (codes "serverName") text not_null
        ∷ column (codes "host") text not_null
        ∷ column (codes "port") integer not_null
        ∷ [])
    ∷ []

module _ (o : Outside) where
  -- `ArchiveDB`
  pub archive_db : ConfigureMap → o.World → Option Exception × o.World
  unfolding construct
  archive_db conf w = construct o (codes "Archive") archive_statements conf w

  -- `UserDB`
  pub user_db : ConfigureMap → o.World → Option Exception × o.World
  unfolding construct
  user_db conf w = construct o (codes "User") user_statements conf w
