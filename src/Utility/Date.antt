-- ===== src/Utility/Date.antt =====
-- `generateHttpDateTime` (Utility.cpp) of a `time_t`. `gmtime_r` and `strftime` are parameters; the
-- latter with its documented result for the one format that is used, the names cut out.
use suda_gureum.Base.{
  ℕ, zero, suc, ◌+◌, ◌-◌, ◌/◌, ◌%◌, ◌<◌, ◌≡◌, refl, ap, ◌∙◌, List, [], ◌∷◌, ◌++◌, Option, none,
  some, length, take, drop, All, Bytes, codes, arith,
}

-- `struct tm`, with the year since 0.
pub record Tm : Type 0 where
  pub mday : ℕ
  pub mon : ℕ
  pub year : ℕ
  pub hour : ℕ
  pub min : ℕ
  pub sec : ℕ
  pub wday : ℕ

abbrev pub digit : ℕ → ℕ
digit n = b'0' + n % 10

abbrev pub two_digits : ℕ → Bytes
two_digits n = digit (n / 10) ∷ digit n ∷ []

abbrev pub four_digits : ℕ → Bytes
four_digits n = digit (n / 1000) ∷ digit (n / 100) ∷ digit (n / 10) ∷ digit n ∷ []

abbrev pub clock_text : Tm → Bytes
clock_text t =
    four_digits t.year
    ++ (b' '
        ∷ (two_digits t.hour
            ++ (b':' ∷ (two_digits t.min ++ (b':' ∷ (two_digits t.sec ++ codes " GMT"))))))

-- A time that the two calls can break down and print: a year of four digits.
pub record Calendar : Type 0 where
  pub gmtime : ℕ → Option Tm
  pub gmtime_lem : (time : ℕ) (t : Tm) → gmtime time ≡ some t → (t.wday < 7) × (t.mon < 12)
  -- with the format "---, %d --- %Y %H:%M:%S GMT"
  pub strftime : Tm → Bytes
  pub strftime_lem :
      (t : Tm)
      → t.year < 10000
      → strftime t ≡ codes "---, " ++ (two_digits t.mday ++ (codes " --- " ++ clock_text t))

-- The array of the names; an index in range is what `gmtime_r` gives.
abbrev pub name_at : ℕ → List Bytes → Bytes
name_at n [] = []
name_at zero (name ∷ names) = name
name_at (suc n) (name ∷ names) = name_at n names

abbrev pub day_names : List Bytes
day_names =
    codes "Sun"
    ∷ codes "Mon"
    ∷ codes "Tue"
    ∷ codes "Wed"
    ∷ codes "Thu"
    ∷ codes "Fri"
    ∷ codes "Sat"
    ∷ []

abbrev pub month_names : List Bytes
month_names =
    codes "Jan"
    ∷ codes "Feb"
    ∷ codes "Mar"
    ∷ codes "Apr"
    ∷ codes "May"
    ∷ codes "Jun"
    ∷ codes "Jul"
    ∷ codes "Aug"
    ∷ codes "Sep"
    ∷ codes "Oct"
    ∷ codes "Nov"
    ∷ codes "Dec"
    ∷ []

abbrev pub zero_bytes : ℕ → Bytes
zero_bytes zero = []
zero_bytes (suc n) = 0 ∷ zero_bytes n

-- `memcpy` of three bytes
abbrev pub copy_at : ℕ → Bytes → Bytes → Bytes
copy_at at name buf = take at buf ++ (name ++ drop (at + 3) buf)

three_bytes : (s : Bytes) → length s ≡ 3 → (a : ℕ) × (b : ℕ) × (c : ℕ) × (s ≡ a ∷ b ∷ c ∷ [])
three_bytes (a ∷ b ∷ c ∷ []) h = (a, b, c, refl)
three_bytes [] h = absurd (omega (arith, h))
three_bytes (a ∷ []) h = absurd (omega (arith, h))
three_bytes (a ∷ b ∷ []) h = absurd (omega (arith, h))
three_bytes (a ∷ b ∷ c ∷ d ∷ s) h = absurd (omega (arith, h))

name_at-All :
    (n : ℕ) (names : List Bytes)
    → All (λ name. length name ≡ 3) names
    → n < length names
    → length (name_at n names) ≡ 3
name_at-All n [] h lt = absurd (omega arith)
name_at-All zero (name ∷ names) (hn, h) lt = hn
name_at-All (suc n) (name ∷ names) (hn, h) lt = name_at-All n names h (omega arith)

module _ (calendar : Calendar) where
  abbrev pub printed : Option Tm → Bytes
  printed none = []
  printed (some t) =
      let text : Bytes = calendar.strftime t in
      let buf : Bytes = text ++ zero_bytes (40 - length text) in
      copy_at 8 (name_at t.mon month_names) (copy_at 0 (name_at t.wday day_names) buf)

  pub generate_http_date_time : ℕ → Bytes
  generate_http_date_time time = printed (calendar.gmtime time)

  -- A time that is broken down to a year of at most four digits: the date as HTTP writes it, and
  -- eleven zero bytes behind it.
  generate_http_date_time_lem :
      (time : ℕ) (t : Tm)
      → calendar.gmtime time ≡ some t
      → t.year < 10000
      → generate_http_date_time time ≡ (
          name_at t.wday day_names
          ++ (codes ", "
              ++ (two_digits t.mday
                  ++ (b' '
                      ∷ (name_at t.mon month_names ++ (b' ' ∷ (clock_text t ++ zero_bytes 11)))))))
  unfolding generate_http_date_time
  generate_http_date_time_lem time t broken_down year =
      let (a, b, c, day) =
        three_bytes (name_at t.wday day_names)
          (name_at-All t.wday day_names (omega arith) (calendar.gmtime_lem time t broken_down).0) in
      ap (printed) broken_down
      ∙ ap
          (λ text.
            copy_at 8 (name_at t.mon month_names)
              (copy_at 0 (name_at t.wday day_names) (text ++ zero_bytes (40 - length text))))
          (calendar.strftime_lem t year)
      ∙ rw day refl
