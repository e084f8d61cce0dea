-- ===== src/Monitor/Query.antt =====
-- The rows that a request for stored values selects: the conditions that `mysql_fetch_point_stats` and
-- `mysql_fetch_duration_stats` of NetworkMonitoringTools/stats_send_ver_test1/mysql_operate.c write, and
-- `set_request` of local_inform.c. The database is taken to compare dates and times as its `date` and
-- `time` columns do.
pub mod Rows
use icnprototype.Prelude.{
  ℕ, ◌+◌, ◌-◌, ◌*◌, ◌/◌, ◌%◌, ◌^◌, Bool, true, false, ◌==◌, ◌&&◌, ◌||◌, not, List, [], ◌∷◌, Option,
  none, some, ltb, leb, if◌then◌else◌,
}
use icnprototype.Prelude.Int.{ℤ, pos, negsuc, ◌+ℤ◌, ◌-ℤ◌, ltb_ℤ}
use icnprototype.Monitor.Requests.{Tm}

-- A text `hour:minute:second`.
pub record Clock : Type 0 where
  pub hour : ℤ
  pub minute : ℤ
  pub second : ℤ

-- A text `year-month-day`.
pub record Date : Type 0 where
  pub year : ℤ
  pub month : ℤ
  pub day : ℤ

pub record Row : Type 0 where
  pub date : Date
  pub time : Clock

abbrev pub date_of : Tm → Date
date_of t = record { year = t.tm_year; month = t.tm_mon; day = t.tm_mday }

abbrev pub time_of : Tm → Clock
time_of t = record { hour = t.tm_hour; minute = t.tm_min; second = t.tm_sec }

abbrev pub eq_ℤ : ℤ → ℤ → Bool
eq_ℤ (pos a) (pos b) = a == b
eq_ℤ (negsuc a) (negsuc b) = a == b
eq_ℤ _ _ = false

-- `_time1`.
pub second_before : Tm → Clock
second_before t =
    if not (eq_ℤ t.tm_sec (pos 0))
    then (if not (eq_ℤ t.tm_min (pos 0))
        then record { hour = t.tm_hour -ℤ pos 1; minute = pos 59; second = pos 59 }
        else record { hour = t.tm_hour; minute = t.tm_min -ℤ pos 1; second = pos 59 })
    else record { hour = t.tm_hour; minute = t.tm_min; second = t.tm_sec -ℤ pos 1 }

-- `_time3`.
pub second_after : Tm → Clock
second_after t =
    if eq_ℤ t.tm_sec (pos 59)
    then (if eq_ℤ t.tm_min (pos 59)
        then record { hour = t.tm_hour +ℤ pos 1; minute = pos 0; second = pos 0 }
        else record { hour = t.tm_hour; minute = t.tm_min +ℤ pos 1; second = pos 0 })
    else record { hour = t.tm_hour; minute = t.tm_min; second = t.tm_sec +ℤ pos 1 }

abbrev pub eq_date : Date → Date → Bool
eq_date a b = eq_ℤ a.year b.year && eq_ℤ a.month b.month && eq_ℤ a.day b.day

abbrev pub eq_time : Clock → Clock → Bool
eq_time a b = eq_ℤ a.hour b.hour && eq_ℤ a.minute b.minute && eq_ℤ a.second b.second

abbrev pub le_time : Clock → Clock → Bool
le_time a b =
    ltb_ℤ a.hour b.hour
    || eq_ℤ a.hour b.hour
      && (ltb_ℤ a.minute b.minute || eq_ℤ a.minute b.minute && not (ltb_ℤ b.second a.second))

-- The rows of a point of time.
pub point_rows : Tm → Row → Bool
unfolding second_before second_after
point_rows start row =
    eq_date row.date (date_of start)
    && (eq_time row.time (second_before start)
        || eq_time row.time (time_of start)
        || eq_time row.time (second_after start))

-- The rows of a duration, of one day or of two.
pub duration_rows : Tm → Tm → Row → Bool
duration_rows start end row =
    if eq_date (date_of start) (date_of end)
    then eq_date row.date (date_of start)
      && (le_time (time_of start) row.time && le_time row.time (time_of end))
    else eq_date row.date (date_of start) && le_time (time_of start) row.time
      || eq_date row.date (date_of end) && le_time row.time (time_of end)
