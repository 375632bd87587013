-- ===== src/Obj/Datetime.antt =====
-- The type `datetime` of duro/obj/datetimeops.c: its checks, selector, getters and setters, with
-- `RDB_tm_to_obj` and `RDB_datetime_to_tm` of duro/obj/object.c. `int` values are integers, the
-- fields of an `RDB_time` one `int16_t` and five `uint8_t`. A switch on no month leaves the number
-- of days `uninitialised`. The calls of <time.h> and the operators over them are left out.
pub mod Fields
use durodbms.Prelude.{
  in_int32, Bool, Error, Option, Result, above_ℕ, below_ℕ, bits8, divides, err, if◌then◌else◌,
  minus_ℕ, negsuc, none, not, ok, plus_ℕ, pos, some, to_int16, true, type_constraint_violation,
  uninitialised, ℕ, ℤ, ◌&&◌, ◌==◌, ◌||◌,
}

pub record RdbTime : Type 0 where
  pub year : ℤ
  pub month : ℕ
  pub day : ℕ
  pub hour : ℕ
  pub minute : ℕ
  pub second : ℕ

-- The fields of `struct tm` that are used.
pub record Tm : Type 0 where
  pub tm_year : ℤ
  pub tm_mon : ℤ
  pub tm_mday : ℤ
  pub tm_hour : ℤ
  pub tm_min : ℤ
  pub tm_sec : ℤ

-- A value outside of a range of natural numbers is a violated type constraint.
abbrev pub check_range : ℕ → ℕ → ℤ → Option Error
check_range low high a =
    if below_ℕ a low || above_ℕ a high then some type_constraint_violation else none

unfoldable pub datetime_check_month : ℤ → Option Error
datetime_check_month m = check_range 1 12 m

unfoldable pub is_leap_year : ℤ → Bool
is_leap_year y = if divides 400 y then true else divides 4 y && not (divides 100 y)

unfoldable pub days_of_february : ℤ → ℕ
days_of_february y =
    if below_ℕ y 1924 then (if divides 4 y then 29 else 28) else (if is_leap_year y then 29 else 28)

-- The switch.
unfoldable pub days_of_month : ℤ → ℕ → Option ℕ
days_of_month y m =
    if (m == 1) || (m == 3) || (m == 5) || (m == 7) || (m == 8) || (m == 10) || (m == 12)
    then some 31
    else if (m == 4) || (m == 6) || (m == 9) || (m == 11)
    then some 30
    else if m == 2
    then some (days_of_february y)
    else none

unfoldable pub days_in : ℤ → ℤ → Option ℕ
days_in y (pos m) = days_of_month y m
days_in y (negsuc m) = none

abbrev pub check_days : Option ℕ → ℤ → Option Error
check_days none d = some uninitialised
check_days (some days) d = check_range 1 days d

unfoldable pub datetime_check_day : ℤ → ℤ → ℤ → Option Error
datetime_check_day y m d = check_days (days_in y m) d

unfoldable pub datetime_check_hour : ℤ → Option Error
datetime_check_hour h = check_range 0 23 h

unfoldable pub datetime_check_minute : ℤ → Option Error
datetime_check_minute m = check_range 0 59 m

unfoldable pub datetime_check_second : ℤ → Option Error
datetime_check_second s = check_range 0 60 s

unfoldable pub tm_to_obj : Tm → RdbTime
tm_to_obj tm = record {
  year = to_int16 (plus_ℕ (to_int16 tm.tm_year) 1900);
  month = bits8 (plus_ℕ tm.tm_mon 1);
  day = bits8 tm.tm_mday;
  hour = bits8 tm.tm_hour;
  minute = bits8 tm.tm_min;
  second = bits8 tm.tm_sec;
}

unfoldable pub datetime_to_tm : RdbTime → Tm
datetime_to_tm dt = record {
  tm_year = minus_ℕ dt.year 1900;
  tm_mon = minus_ℕ (pos dt.month) 1;
  tm_mday = pos dt.day;
  tm_hour = pos dt.hour;
  tm_min = pos dt.minute;
  tm_sec = pos dt.second;
}

-- What follows a check that may raise an error.
abbrev pub unless_error : Option Error → Result RdbTime → Result RdbTime
unless_error none rest = rest
unless_error (some e) rest = err e

-- The checks of the selector and its result.
unfoldable pub select_datetime : ℤ → ℤ → ℤ → ℤ → ℤ → ℤ → Result RdbTime
select_datetime y m d h mi s = unless_error (datetime_check_month m) (
    unless_error (datetime_check_day y m d) (
      unless_error (datetime_check_hour h) (
        unless_error (datetime_check_minute mi) (
          unless_error (datetime_check_second s) (
            ok (
              tm_to_obj (record {
                tm_year = minus_ℕ y 1900;
                tm_mon = minus_ℕ m 1;
                tm_mday = d;
                tm_hour = h;
                tm_min = mi;
                tm_sec = s;
              })))))))

-- The selector. After the checks 1900 is subtracted from the year; where the difference is no `int`
-- the behaviour is undefined: `none`.
unfoldable pub datetime : ℤ → ℤ → ℤ → ℤ → ℤ → ℤ → Option (Result RdbTime)
datetime y m d h mi s = elim (select_datetime y m d h mi s) [
  | err e ↦ some (err e)
  | ok dt ↦ if in_int32 (minus_ℕ y 1900) then some (ok dt) else none
]

unfoldable pub datetime_get_year : RdbTime → ℤ
datetime_get_year dt = dt.year

unfoldable pub datetime_get_month : RdbTime → ℤ
datetime_get_month dt = pos dt.month

unfoldable pub datetime_get_day : RdbTime → ℤ
datetime_get_day dt = pos dt.day

unfoldable pub datetime_get_hour : RdbTime → ℤ
datetime_get_hour dt = pos dt.hour

unfoldable pub datetime_get_minute : RdbTime → ℤ
datetime_get_minute dt = pos dt.minute

unfoldable pub datetime_get_second : RdbTime → ℤ
datetime_get_second dt = pos dt.second

unfoldable pub datetime_set_year : RdbTime → ℤ → Result RdbTime
datetime_set_year dt a = ok (record dt { year = to_int16 a })

unfoldable pub datetime_set_month : RdbTime → ℤ → Result RdbTime
datetime_set_month dt a = unless_error (datetime_check_month a) (ok (record dt { month = bits8 a }))

unfoldable pub datetime_set_day : RdbTime → ℤ → Result RdbTime
datetime_set_day dt a =
    unless_error (datetime_check_day dt.year (pos dt.month) a) (ok (record dt { day = bits8 a }))

unfoldable pub datetime_set_hour : RdbTime → ℤ → Result RdbTime
datetime_set_hour dt a = unless_error (datetime_check_hour a) (ok (record dt { hour = bits8 a }))

unfoldable pub datetime_set_minute : RdbTime → ℤ → Result RdbTime
datetime_set_minute dt a =
    unless_error (datetime_check_minute a) (ok (record dt { minute = bits8 a }))

unfoldable pub datetime_set_second : RdbTime → ℤ → Result RdbTime
datetime_set_second dt a =
    unless_error (datetime_check_second a) (ok (record dt { second = bits8 a }))
