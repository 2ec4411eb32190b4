-- ===== src/Archive/RoundTrip.antt =====
-- Lines that are inserted are read back.
use suda_gureum.Archive.{
  LogLine, Row, Query, Sqlite, Clock, filter, between_query, line_of, row_of, fetch_logs,
  fetch_logs_between, insert_log, read_between, insert_line,
}
use suda_gureum.Base.{
  ℕ, ◌≡◌, ◌<◌, refl, sym, ap, ◌∙◌, Bool, true, false, ◌&&◌, inl, inr, Option-cases, List, [], ◌∷◌,
  ◌++◌, map, append_assoc, append-nil, Option, none, some, leb, ltb, if◌then◌else◌, Bytes, bytes_eq,
  arith,
}

module _ {ℓ} {A : Type ℓ} where
  filter-append : (p : A → Bool) (xs ys : List A) → filter p (xs ++ ys) ≡ filter p xs ++ filter p ys
  filter-append p [] ys = refl
  filter-append p (x ∷ xs) ys = ground (arith, filter-append p xs ys)

module _ {ℓ κ} {A : Type ℓ} {B : Type κ} (f : A → B) where
  map-append : (xs ys : List A) → map f (xs ++ ys) ≡ map f xs ++ map f ys
  map-append [] ys = refl
  map-append (x ∷ xs) ys = ap (λ zs. f x ∷ zs) (map-append xs ys)

module _ (sqlite : Sqlite) (clock : Clock) (user_id server_name channel : Bytes) where
  -- A line after another, as long as no insert throws.
  abbrev pub insert_lines : List LogLine → sqlite.Database → Option sqlite.Database
  insert_lines [] db = some db
  insert_lines (line ∷ lines) db =
      elim (insert_line sqlite clock user_id server_name channel line db) [
        | none ↦ none
        | some (done, after) ↦ insert_lines lines after
      ]

  insert_line-rows :
      (line : LogLine) (db after : sqlite.Database) (done : Bool)
      → insert_line sqlite clock user_id server_name channel line db ≡ some (done, after)
      → (done ≡ true)
        × (sqlite.rows after ≡ sqlite.rows db ++ row_of clock user_id server_name channel line ∷ [])
  unfolding insert_line insert_log
  insert_line-rows line db after done h =
      let row : Row = row_of clock user_id server_name channel line in
      elim (Option-cases (sqlite.insert row db)) [
        | inl threw ↦ absurd (ground (arith, h, threw))
        | inr ((n, t), eq) ↦ (
          ground (arith, h, eq, (sqlite.insert_lem row db n t eq).0),
          ground (arith, h, eq, (sqlite.insert_lem row db n t eq).1),
        )
      ]

  insert_lines-rows :
      (lines : List LogLine) (db after : sqlite.Database)
      → insert_lines lines db ≡ some after
      → sqlite.rows after ≡ sqlite.rows db ++ map (row_of clock user_id server_name channel) lines
  insert_lines-rows [] db after h = ground (arith, h, append-nil (sqlite.rows db))
  insert_lines-rows (line ∷ lines) db after h =
      elim (Option-cases (insert_line sqlite clock user_id server_name channel line db)) [
        | inl threw ↦ absurd (ground (arith, h, threw))
        | inr ((done, t), eq) ↦
            insert_lines-rows lines t after (ground (arith, h, eq))
            ∙ ap (λ rows. rows ++ map (row_of clock user_id server_name channel) lines)
                (insert_line-rows line db t done eq).1
            ∙ append_assoc (sqlite.rows db) (row_of clock user_id server_name channel line ∷ [])
                (map (row_of clock user_id server_name channel) lines)
      ]

  -- A line as it is stored: its time in whole seconds.
  abbrev pub stored : LogLine → LogLine
  stored line = record line { time = clock.from_time_t (clock.to_time_t line.time) }

  abbrev pub in_range : ℕ → ℕ → LogLine → Bool
  in_range begin end line =
      leb (clock.to_time_t begin) (clock.to_time_t line.time)
      && ltb (clock.to_time_t line.time) (clock.to_time_t end)

  -- Whether a user and a channel are those of the lines.
  abbrev pub own : Bytes → Bytes → Bytes → Bool
  own u s c = bytes_eq user_id u && (bytes_eq server_name s && bytes_eq channel c)

  abbrev where_of : Bytes → Bytes → Bytes → ℕ → ℕ → Row → Bool
  where_of u s c begin end =
      Query.where_ (between_query u s c (clock.to_time_t begin) (clock.to_time_t end))

  -- What the query finds among the rows of the lines.
  found-lines :
      (u s c : Bytes) (begin end : ℕ) (lines : List LogLine)
      → map
          (line_of clock)
          (filter (where_of u s c begin end) (map (row_of clock user_id server_name channel) lines))
        ≡ (if own u s c then map stored (filter (in_range begin end) lines) else [])
  unfolding line_of row_of
  found-lines u s c begin end [] = ground arith
  found-lines u s c begin end (line ∷ lines) = ground (arith, found-lines u s c begin end lines)

  not_empty : (begin end : ℕ) → begin < end → leb end begin ≡ false
  not_empty begin end h = ground (arith, h)

  read_between-select :
      (u s c : Bytes) (begin end : ℕ) (db : sqlite.Database)
      → begin < end
      → read_between sqlite clock u s c begin end db
        ≡ map (line_of clock) (
            filter
              (Query.where_ (between_query u s c (clock.to_time_t begin) (clock.to_time_t end)))
              (sqlite.rows db))
  unfolding read_between fetch_logs_between fetch_logs
  read_between-select u s c begin end db h = rw (not_empty begin end h) (
      ap (map (line_of clock))
        (sqlite.select_lem (between_query u s c (clock.to_time_t begin) (clock.to_time_t end)) db))

  -- Lines inserted one after the other, none of which throws, and any channel of any user, read over
  -- a range: behind what was read there before come, for the channel and the user of the lines, those
  -- of them whose second is in the range of whole seconds, in order, each with its time cut to the
  -- second; for any other channel or user, nothing.
  pub read_between-insert_lines :
      (lines : List LogLine) (db after : sqlite.Database) (u s c : Bytes) (begin end : ℕ)
      → insert_lines lines db ≡ some after
      → begin < end
      → read_between sqlite clock u s c begin end after
        ≡ read_between sqlite clock u s c begin end db
          ++ (if own u s c then map stored (filter (in_range begin end) lines) else [])
  read_between-insert_lines lines db after u s c begin end h ordered =
      read_between-select u s c begin end after ordered
      ∙ ap (λ rows. map (line_of clock) (filter (where_of u s c begin end) rows))
          (insert_lines-rows lines db after h)
      ∙ ap (map (line_of clock)) (
          filter-append (where_of u s c begin end) (sqlite.rows db)
            (map (row_of clock user_id server_name channel) lines))
      ∙ map-append (line_of clock) (filter (where_of u s c begin end) (sqlite.rows db))
          (filter (where_of u s c begin end) (map (row_of clock user_id server_name channel) lines))
      ∙ ap (λ ls. map (line_of clock) (filter (where_of u s c begin end) (sqlite.rows db)) ++ ls)
          (found-lines u s c begin end lines)
      ∙ ap (λ ls. ls ++ (if own u s c then map stored (filter (in_range begin end) lines) else []))
          (sym (read_between-select u s c begin end db ordered))
