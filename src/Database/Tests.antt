-- ===== src/Database/Tests.antt =====
-- A file whose connection sees a copy of its schema, and a statement that can be refused.
use suda_gureum.Base.{
  Bool, ◌≡◌, refl, inr, true, false, [], ◌∷◌, ◌++◌, Option, none, some, Bytes, codes, arith,
}
use suda_gureum.Base.Result.{Exception, std_exception}
use suda_gureum.Base.AssocMap.{find}
use suda_gureum.Configure.{get}
use suda_gureum.Database.{
  Statement, create_table, create_index, Schema, create_if_not_exists, Outside, database_file,
  exec_all, run_transaction, set_up, construct, user_statements, archive_db, user_db,
}
use suda_gureum.Database.Atomic.{left, construct-left}

-- What is committed, and what the transaction sees if one is open.
abbrev World : Type 0
World = Schema × Option Schema

abbrev refuses_index : Statement → Option Exception
refuses_index (create_table name columns) = none
refuses_index (create_index name table columns) = some (std_exception (codes "disk full"))

abbrev refuses_none : Statement → Option Exception
refuses_none st = none

abbrev is_open : Option Schema → Bool
is_open none = false
is_open (some seen) = true

abbrev seen_by : World → Schema
seen_by (committed, none) = committed
seen_by (committed, some seen) = seen

abbrev executed : Option Exception → Statement → World → Option Exception × World
executed (some e) st w = (some e, w)
executed none st (committed, some seen) = (none, (committed, some (create_if_not_exists st seen)))
executed none st (committed, none) = (none, (create_if_not_exists st committed, none))

executed-schema :
    (r : Option Exception) (st : Statement) (w : World)
    → is_open w.1 ≡ true
    → (executed r st w).1.0 ≡ w.0
executed-schema (some e) st w h = refl
executed-schema none st (committed, some seen) h = refl
executed-schema none st (committed, none) h = absurd (ground (arith, h))

executed-seen :
    (r : Option Exception) (st : Statement) (w : World)
    → is_open w.1 ≡ true
    → (executed r st w).0 ≡ none
    → (is_open (executed r st w).1.1 ≡ true)
      × (seen_by (executed r st w).1 ≡ create_if_not_exists st (seen_by w))
executed-seen (some e) st w h returned = ground (arith, returned)
executed-seen none st (committed, some seen) h returned = (refl, refl)
executed-seen none st (committed, none) h returned = absurd (ground (arith, h))

no_exception {ℓ} : {A : Type ℓ} {e : Exception} → ◌≡◌ {A = Option Exception} none (some e) → A
no_exception h = ground (arith, h)

abbrev outside : (Statement → Option Exception) → Outside
outside refuses = record {
  World = World;
  FilePath = Bytes;
  decode_utf8 = λ path. inr path;
  file_in = λ path name. inr (path ++ b'/' ∷ name);
  create_directories = λ path w. ((true, none), w);
  schema = λ file w. w.0;
  pending = λ file w. seen_by w;
  in_transaction = λ file w. is_open w.1;
  open_file = λ file w. (none, (w.0, none));
  begin = λ file w. (none, (w.0, some w.0));
  exec = λ st file w. executed (refuses st) st w;
  commit = λ file w. (none, (seen_by w, none));
  rollback = λ file w. (w.0, none);
  close = λ file w. (w.0, none);
  create_directories_lem = λ path file w. refl;
  open_lem = λ file w. refl;
  open_idle_lem = λ file w. refl;
  begin_lem = λ file w idle. refl;
  begun_lem = λ file w idle h. (refl, refl);
  begin_thrown_lem = λ file w e idle h. no_exception h;
  exec_lem = λ st file w. executed-schema (refuses st) st w;
  executed_lem = λ st file w. executed-seen (refuses st) st w;
  commit_lem = λ file w on h. (refl, refl);
  commit_thrown_lem = λ file w e on h. no_exception h;
  rollback_lem = λ file w. (refl, refl);
  close_lem = λ file w idle. (refl, refl);
}

-- A table that was there already, under another case of its name.
abbrev old_log : Statement
old_log = create_table (codes "LOG") []

abbrev log_index : Statement
log_index = create_index (codes "LogIndex") (codes "Log") (
    (codes "userId", false)
    ∷ (codes "serverName", false)
    ∷ (codes "channel", false)
    ∷ (codes "logTime", true)
    ∷ [])

archive_example :
    archive_db (outside refuses_none) [] (old_log ∷ [], none)
    ≡ (none, (old_log ∷ log_index ∷ [], none))
unfolding archive_db construct database_file get find set_up run_transaction exec_all
archive_example = refl

user_refused_example :
    user_db (outside refuses_index) [] ([], none)
    ≡ (some (std_exception (codes "disk full")), ([], none))
unfolding user_db construct database_file get find set_up run_transaction exec_all
user_refused_example = refl

file_example :
    (database_file (outside refuses_index) [] (codes "User") ([], none)).0
    ≡ inr (codes "./Data/User.db")
unfolding database_file get find
file_example = refl

construct-left_example :
    ((construct (outside refuses_index) (codes "User") user_statements [] ([], none)).1.0
      ≡ left user_statements
          (construct (outside refuses_index) (codes "User") user_statements [] ([], none)).0
          [])
    × (is_open (construct (outside refuses_index) (codes "User") user_statements [] ([], none)).1.1
        ≡ false)
construct-left_example =
    construct-left (outside refuses_index) (codes "User") [] user_statements ([], none)
      (codes "./Data/User.db") file_example
