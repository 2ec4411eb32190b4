-- ===== src/Archive.antt =====
-- The log lines: Archive.h, Archive.cpp, and `ArchiveDB` of DB.h and DB.cpp. SQLite is a parameter:
-- what the statements of the program rely on are the laws of an interface. Times are counted in ticks
-- of the system clock from the epoch on, and their conversion to `time_t` is a parameter.
pub mod Last
pub mod RoundTrip
pub mod Tests
use mathlib.Core.List.{reverse}
use suda_gureum.Base.{
  ℕ, ◌+◌, ◌≡◌, Bool, true, false, ◌&&◌, List, [], ◌∷◌, ◌++◌, map, Option, none, some, ◌==◌, ltb,
  leb, if◌then◌else◌, take, Bytes, bytes_eq,
}

-- `LogLine`. The type of a line is an enumeration, which is stored as its number.
pub record LogLine : Type 0 where
  pub time : ℕ
  pub nickname : Bytes
  pub log_type : ℕ
  pub message : Bytes

-- A row of the table `Log`, without `idx`.
pub record Row : Type 0 where
  pub user_id : Bytes
  pub server_name : Bytes
  pub channel : Bytes
  pub log_time : ℕ
  pub nickname : Bytes
  pub log_type : ℕ
  pub message : Bytes

-- A SELECT from the table: WHERE, ORDER BY idx DESC or ASC, and LIMIT.
pub record Query : Type 0 where
  pub where_ : Row → Bool
  pub descending : Bool
  pub limit : Option ℕ

module _ {ℓ} {A : Type ℓ} where
  abbrev pub filter : (A → Bool) → List A → List A
  filter p [] = []
  filter p (x ∷ xs) = let rest : List A = filter p xs in if p x then x ∷ rest else rest

  abbrev pub limited : Option ℕ → List A → List A
  limited none xs = xs
  limited (some n) xs = take n xs

-- The rows that the documentation of SQLite promises for a query.
abbrev pub selected : Query → List Row → List Row
selected q rows =
    limited q.limit (if q.descending then reverse (filter q.where_ rows) else filter q.where_ rows)

-- The database: its rows in the order of `idx`, which AUTOINCREMENT makes the order of the inserts.
pub record Sqlite : Type 1 where
  pub Database : Type 0
  pub rows : Database → List Row
  pub select : Query → Database → List Row
  pub select_lem : (q : Query) (db : Database) → select q db ≡ selected q (rows db)
  -- The number of rows changed and the database after it; `none` is an exception.
  pub insert : Row → Database → Option (ℕ × Database)
  pub insert_lem :
      (row : Row) (db : Database) (n : ℕ) (after : Database)
      → insert row db ≡ some (n, after)
      → (n ≡ 1) × (rows after ≡ rows db ++ row ∷ [])

-- The conversions of `std::chrono::system_clock`.
pub record Clock : Type 0 where
  pub to_time_t : ℕ → ℕ
  pub from_time_t : ℕ → ℕ
  pub to_time_t_lem : (epoch : ℕ) → to_time_t (from_time_t epoch) ≡ epoch

module _ (clock : Clock) where
  pub line_of : Row → LogLine
  line_of row = record {
    time = clock.from_time_t row.log_time;
    nickname = row.nickname;
    log_type = row.log_type;
    message = row.message;
  }

  pub row_of : Bytes → Bytes → Bytes → LogLine → Row
  row_of user_id server_name channel line = record {
    user_id = user_id;
    server_name = server_name;
    channel = channel;
    log_time = clock.to_time_t line.time;
    nickname = line.nickname;
    log_type = line.log_type;
    message = line.message;
  }

abbrev pub of_channel : Bytes → Bytes → Bytes → Row → Bool
of_channel user_id server_name channel row =
    bytes_eq row.user_id user_id
    && (bytes_eq row.server_name server_name && bytes_eq row.channel channel)

abbrev pub between_query : Bytes → Bytes → Bytes → ℕ → ℕ → Query
between_query user_id server_name channel begin end = record {
  where_ = λ row.
      of_channel user_id server_name channel row
      && (leb begin row.log_time && ltb row.log_time end);
  descending = false;
  limit = none;
}

-- `static_cast<int64_t>(count)`: a negative limit is none.
abbrev pub limit_of : ℕ → Option ℕ
limit_of count = if ltb count 9223372036854775808 then some count else none

abbrev pub before_query : Bytes → Bytes → Bytes → ℕ → ℕ → Query
before_query user_id server_name channel end count = record {
  where_ = λ row. of_channel user_id server_name channel row && ltb row.log_time end;
  descending = true;
  limit = limit_of count;
}

module _ (sqlite : Sqlite) (clock : Clock) where
  pub fetch_logs : Query → sqlite.Database → List LogLine
  unfolding line_of
  fetch_logs query db = map (line_of clock) (sqlite.select query db)

  pub fetch_logs_between : Bytes → Bytes → Bytes → ℕ → ℕ → sqlite.Database → List LogLine
  unfolding fetch_logs
  fetch_logs_between user_id server_name channel begin end db =
      if leb end begin
      then []
      else fetch_logs
          (between_query user_id server_name channel (clock.to_time_t begin) (clock.to_time_t end))
          db

  pub fetch_logs_before : Bytes → Bytes → Bytes → ℕ → ℕ → Bool → sqlite.Database → List LogLine
  unfolding fetch_logs
  fetch_logs_before user_id server_name channel end count include_end db =
      if count == 0
      then []
      else reverse (
          fetch_logs
            (before_query user_id server_name channel
              (clock.to_time_t end + (if include_end then 1 else 0)) count)
            db)

  abbrev inserted : Option (ℕ × sqlite.Database) → Option (Bool × sqlite.Database)
  inserted none = none
  inserted (some (changed, after)) = some (ltb 0 changed, after)

  pub insert_log :
      Bytes → Bytes → Bytes → LogLine → sqlite.Database → Option (Bool × sqlite.Database)
  unfolding row_of
  insert_log user_id server_name channel line db =
      inserted (sqlite.insert (row_of clock user_id server_name channel line) db)

-- `Archive`: the operations of one user.
module _ (sqlite : Sqlite) (clock : Clock) (user_id : Bytes) where
  pub read_between : Bytes → Bytes → ℕ → ℕ → sqlite.Database → List LogLine
  unfolding fetch_logs_between
  read_between server_name channel begin end db =
      fetch_logs_between sqlite clock user_id server_name channel begin end db

  pub read_before : Bytes → Bytes → ℕ → ℕ → Bool → sqlite.Database → List LogLine
  unfolding fetch_logs_before
  read_before server_name channel end lines include_end db =
      fetch_logs_before sqlite clock user_id server_name channel end lines include_end db

  pub insert_line : Bytes → Bytes → LogLine → sqlite.Database → Option (Bool × sqlite.Database)
  unfolding insert_log
  insert_line server_name channel line db =
      insert_log sqlite clock user_id server_name channel line db
