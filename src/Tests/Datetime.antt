-- ===== src/Tests/Datetime.antt =====
-- duro/obj/datetimeops.c on dates around leap days.
use durodbms.Obj.Datetime.{
  RdbTime, datetime, datetime_check_day, datetime_check_hour, datetime_check_minute,
  datetime_check_month, datetime_check_second, datetime_set_day, datetime_set_month,
  datetime_set_year, days_in, days_of_february, days_of_month, is_leap_year, select_datetime,
  tm_to_obj,
}
use durodbms.Obj.Datetime.Fields.{IsDatetime, Selects, datetime-IsDatetime}
use durodbms.Prelude.{err, ok, pos, refl, some, type_constraint_violation, ◌≡◌, ◌⊎◌}

time_runs : Unit {0}
unfolding datetime select_datetime datetime_check_month datetime_check_day datetime_check_hour
    datetime_check_minute datetime_check_second days_in days_of_month days_of_february is_leap_year
    tm_to_obj datetime_set_month datetime_set_day datetime_set_year
time_runs = tt

abbrev january_31 : RdbTime
january_31 = record { year = pos 2015; month = 1; day = 31; hour = 23; minute = 59; second = 60 }

selected_31 : datetime (pos 2015) (pos 1) (pos 31) (pos 23) (pos 59) (pos 60) ≡ some (ok january_31)
unfolding time_runs
selected_31 = refl

no_february_29 :
    datetime (pos 2100) (pos 2) (pos 29) (pos 0) (pos 0) (pos 0)
    ≡ some (err type_constraint_violation)
unfolding time_runs
no_february_29 = refl

-- 1900 was no leap year in the Gregorian calendar.
february_29_1900 :
    datetime (pos 1900) (pos 2) (pos 29) (pos 0) (pos 0) (pos 0)
    ≡ some (ok (record { year = pos 1900; month = 2; day = 29; hour = 0; minute = 0; second = 0 }))
unfolding time_runs
february_29_1900 = refl

datetime-IsDatetime_example :
    (IsDatetime (pos 2015) (pos 1) (pos 31) (pos 23) (pos 59) (pos 60)
      × Selects
          (pos 2015)
          (pos 1)
          (pos 31)
          (pos 23)
          (pos 59)
          (pos 60)
          (datetime (pos 2015) (pos 1) (pos 31) (pos 23) (pos 59) (pos 60)))
    ⊎ ((¬ IsDatetime (pos 2015) (pos 1) (pos 31) (pos 23) (pos 59) (pos 60))
        × (datetime (pos 2015) (pos 1) (pos 31) (pos 23) (pos 59) (pos 60)
            ≡ some (err type_constraint_violation)))
datetime-IsDatetime_example =
    datetime-IsDatetime (pos 2015) (pos 1) (pos 31) (pos 23) (pos 59) (pos 60)

-- A setter of the month does not look at the day.
february_31 : datetime_set_month january_31 (pos 2) ≡ ok (record january_31 { month = 2 })
unfolding time_runs
february_31 = refl

year_wraps : datetime_set_year january_31 (pos 67551) ≡ ok january_31
unfolding time_runs
year_wraps = refl
