-- ===== src/Archive/Last.antt =====
-- Reading the lines before a time gives the last of them.
use mathlib.Core.List.{reverse}
use suda_gureum.Archive.{
  LogLine, Sqlite, Clock, filter, limited, of_channel, limit_of, before_query, line_of, fetch_logs,
  fetch_logs_before, read_before,
}
use suda_gureum.Base.Last.{last_of, drop-length, map-take, map-reverse_aux, last-reverse}
use suda_gureum.Base.{
  ℕ, ◌+◌, ◌-◌, ◌≡◌, ◌<◌, sym, ap, ◌∙◌, Bool, ◌&&◌, inl, inr, Bool-cases, List, [], map, some, ◌==◌,
  ltb, if◌then◌else◌, length, take, Bytes, arith,
}

limit_of-some : (n : ℕ) → n < 9223372036854775808 → limit_of n ≡ some n
limit_of-some n h = ground (arith, h)

module _ (sqlite : Sqlite) (clock : Clock) (user_id server_name channel : Bytes) where
  -- The lines of a channel before a time, in the order in which they were inserted.
  abbrev pub lines_before : ℕ → sqlite.Database → List LogLine
  lines_before end db = map (line_of clock) (
      filter (λ row. of_channel user_id server_name channel row && ltb row.log_time end)
        (sqlite.rows db))

  select-before :
      (end lines : ℕ) (db : sqlite.Database)
      → lines < 9223372036854775808
      → sqlite.select (before_query user_id server_name channel end lines) db
        ≡ take lines (
            reverse (
              filter
                (λ row. of_channel user_id server_name channel row && ltb row.log_time end)
                (sqlite.rows db)))
  select-before end lines db h =
      sqlite.select_lem (before_query user_id server_name channel end lines) db
      ∙ ap
          (λ l. limited l (
            reverse (
              filter (λ row. of_channel user_id server_name channel row && ltb row.log_time end)
                (sqlite.rows db))))
          (limit_of-some lines h)

  -- Reading less than 2^63 lines before a time, all by whole seconds: the last lines of the channel
  -- whose second is before the second of that time, in the order of their insertion, or all if
  -- there are less. With include_end the whole second of that time is in, so also lines of it
  -- behind the time; without it none of that second, so also no line of it before the time.
  pub read_before-last :
      (end lines : ℕ) (include_end : Bool) (db : sqlite.Database)
      → lines < 9223372036854775808
      → read_before sqlite clock user_id server_name channel end lines include_end db
        ≡ last_of lines (lines_before (clock.to_time_t end + (if include_end then 1 else 0)) db)
  unfolding read_before fetch_logs_before fetch_logs
  read_before-last end lines include_end db h =
      let stop : ℕ = clock.to_time_t end + (if include_end then 1 else 0) in
      elim (Bool-cases (lines == 0)) [
        | inl unasked ↦ rw unasked (
            sym (
              drop-length (length (lines_before stop db) - lines) (lines_before stop db)
                (ground (arith, unasked))))
        | inr asked ↦ rw asked (
            ap (λ rows. reverse (map (line_of clock) rows)) (select-before stop lines db h)
            ∙ ap reverse (
                map-take (line_of clock) lines (
                  reverse (
                    filter
                      (λ row. of_channel user_id server_name channel row && ltb row.log_time stop)
                      (sqlite.rows db)))
                ∙ ap (take lines) (
                    map-reverse_aux (line_of clock)
                      (filter
                        (λ row. of_channel user_id server_name channel row && ltb row.log_time stop)
                        (sqlite.rows db))
                      []))
            ∙ last-reverse lines (lines_before stop db))
      ]
