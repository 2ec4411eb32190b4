-- ===== src/Archive/Tests.antt =====
-- The archive at concrete input.
use suda_gureum.Archive.Last.{lines_before, read_before-last}
use suda_gureum.Archive.RoundTrip.{insert_lines, own, stored, in_range, read_between-insert_lines}
use suda_gureum.Archive.{
  LogLine, Row, Sqlite, Clock, filter, selected, row_of, read_before, read_between, insert_line,
  insert_log,
}
use suda_gureum.Base.Last.{last_of}
use suda_gureum.Base.{
  ℕ, ◌+◌, ◌*◌, ◌/◌, ◌≡◌, refl, true, List, [], ◌∷◌, ◌++◌, map, some, if◌then◌else◌, codes, arith,
}

-- A database that is the list of its rows, and a clock of ten ticks a second.
abbrev list_sqlite : Sqlite
list_sqlite = record {
  Database = List Row;
  rows = λ db. db;
  select = selected;
  select_lem = λ q db. refl;
  insert = λ row db. some (1, db ++ row ∷ []);
  insert_lem = λ row db n after h. (ground (arith, h), ground (arith, h));
}

abbrev tenths : Clock
tenths = record {
  to_time_t = λ t. t / 10;
  from_time_t = λ epoch. epoch * 10;
  to_time_t_lem = λ epoch. omega arith;
}

abbrev said : ℕ → LogLine
said time = record { time = time; nickname = codes "me"; log_type = 5; message = codes "hi" }

abbrev three_rows : List Row
three_rows =
    map (row_of tenths (codes "u") (codes "s") (codes "#c")) (said 101 ∷ said 119 ∷ said 120 ∷ [])

read_before-last_example :
    read_before list_sqlite tenths (codes "u") (codes "s") (codes "#c") 119 1 true three_rows
    ≡ last_of 1 (
        lines_before list_sqlite tenths
          (codes "u")
          (codes "s")
          (codes "#c")
          (11 + (if true then 1 else 0))
          three_rows)
read_before-last_example =
    read_before-last list_sqlite tenths (codes "u") (codes "s") (codes "#c") 119 1 true three_rows
      (omega arith)

inserted-two :
    insert_lines list_sqlite tenths
      (codes "u")
      (codes "s")
      (codes "#c")
      (said 125 ∷ said 131 ∷ [])
      three_rows
    ≡ some (
        three_rows
        ++ map (row_of tenths (codes "u") (codes "s") (codes "#c")) (said 125 ∷ said 131 ∷ []))
unfolding insert_line insert_log row_of
inserted-two = refl

read_between-insert_lines_example :
    read_between list_sqlite tenths (codes "u") (codes "s") (codes "#c") 124 130 (
      three_rows
      ++ map (row_of tenths (codes "u") (codes "s") (codes "#c")) (said 125 ∷ said 131 ∷ []))
    ≡ read_between list_sqlite tenths (codes "u") (codes "s") (codes "#c") 124 130 three_rows
      ++ (if own list_sqlite tenths
            (codes "u")
            (codes "s")
            (codes "#c")
            (codes "u")
            (codes "s")
            (codes "#c")
          then map (stored list_sqlite tenths (codes "u") (codes "s") (codes "#c")) (
              filter
                (in_range list_sqlite tenths (codes "u") (codes "s") (codes "#c") 124 130)
                (said 125 ∷ said 131 ∷ []))
          else [])
read_between-insert_lines_example =
    read_between-insert_lines list_sqlite tenths (codes "u") (codes "s") (codes "#c")
      (said 125 ∷ said 131 ∷ []) three_rows
      (three_rows
        ++ map (row_of tenths (codes "u") (codes "s") (codes "#c")) (said 125 ∷ said 131 ∷ []))
      (codes "u") (codes "s") (codes "#c") 124 130 inserted-two (omega arith)
