-- ===== src/Obj/Datetime/Fields.antt =====
-- The selector of duro/obj/datetimeops.c against the calendar, and its setters.
use durodbms.Obj.Datetime.{
  RdbTime, Tm, check_days, check_range, datetime, datetime_check_day, datetime_check_hour,
  datetime_check_minute, datetime_check_month, datetime_check_second, datetime_get_day,
  datetime_get_hour, datetime_get_minute, datetime_get_month, datetime_get_second,
  datetime_get_year, days_in, days_of_february, days_of_month, is_leap_year, select_datetime,
  tm_to_obj, unless_error,
}
use durodbms.Obj.OpMap.{fits}
use durodbms.Prelude.{
  Bool-cases, Error, IsInt16, List, Option, Result, [], ap, arith, below_ℕ, bits8, dec_le, divides,
  err, false, get_or, if◌then◌else◌, in_int32, inl, inr, minus_ℕ, neg_part, negsuc, none, not, ok,
  plus_ℕ, pos, pos_part, refl, some, suc, to_int16, to_int16_fits, true, type_constraint_violation,
  zero, ℕ, ℤ, ◌&&◌, ◌+◌, ◌-◌, ◌<◌, ◌==◌, ◌||◌, ◌∙◌, ◌∷◌, ◌≡◌, ◌≤◌, ◌⊎◌,
}

-- The days of the months of a common year.
abbrev pub lengths : List ℕ
lengths = 31 ∷ 28 ∷ 31 ∷ 30 ∷ 31 ∷ 30 ∷ 31 ∷ 31 ∷ 30 ∷ 31 ∷ 30 ∷ 31 ∷ []

-- Julian leap years up to 1923, Gregorian ones from 1924 on.
abbrev pub leap_day : ℤ → ℕ
leap_day y =
    if divides 4 y && (below_ℕ y 1924 || not (divides 100 y) || divides 400 y) then 1 else 0

-- The number of days of month `m`, counted from 1.
abbrev pub month_length : ℤ → ℕ → ℕ
month_length y m = get_or lengths (m - 1) 0 + (if m == 2 then leap_day y else 0)

-- From `low` to `high`.
abbrev pub InRange : ℕ → ℕ → ℤ → Type 0
InRange low high a = (neg_part a ≡ 0) × (low ≤ pos_part a) × (pos_part a ≤ high)

-- A date and a time of day, the second possibly a leap second.
pub record IsDatetime (y m d h mi s : ℤ) : Type 0 where
  pub month_range : InRange 1 12 m
  pub day_range : InRange 1 (month_length y (pos_part m)) d
  pub hour_range : InRange 0 23 h
  pub minute_range : InRange 0 59 mi
  pub second_range : InRange 0 60 s

days_of_month-month_length :
    (y : ℤ) (m : ℕ) → 1 ≤ m → m ≤ 12 → days_of_month y m ≡ some (month_length y m)
unfolding days_of_month days_of_february is_leap_year
days_of_month-month_length y zero a b = absurd (omega arith)
days_of_month-month_length y (suc zero) a b = refl
days_of_month-month_length y (suc (suc zero)) a b = ground arith
days_of_month-month_length y (suc (suc (suc zero))) a b = refl
days_of_month-month_length y (suc (suc (suc (suc zero)))) a b = refl
days_of_month-month_length y (suc (suc (suc (suc (suc zero))))) a b = refl
days_of_month-month_length y (suc (suc (suc (suc (suc (suc zero)))))) a b = refl
days_of_month-month_length y (suc (suc (suc (suc (suc (suc (suc zero))))))) a b = refl
days_of_month-month_length y (suc (suc (suc (suc (suc (suc (suc (suc zero)))))))) a b = refl
days_of_month-month_length y (suc (suc (suc (suc (suc (suc (suc (suc (suc zero))))))))) a b = refl
days_of_month-month_length y (suc (suc (suc (suc (suc (suc (suc (suc (suc (suc zero)))))))))) a b =
    refl
days_of_month-month_length y (suc (suc (suc (suc (suc (suc (suc (suc (suc (suc (suc zero)))))))))))
      a b =
    refl
days_of_month-month_length y
      (suc (suc (suc (suc (suc (suc (suc (suc (suc (suc (suc (suc zero)))))))))))) a b =
    refl
days_of_month-month_length y
      (suc (suc (suc (suc (suc (suc (suc (suc (suc (suc (suc (suc (suc m))))))))))))) a b =
    absurd (omega arith)

range_cases :
    (low high : ℕ) (a : ℤ)
    → (InRange low high a × (check_range low high a ≡ none))
      ⊎ ((¬ InRange low high a) × (check_range low high a ≡ some type_constraint_violation))
range_cases low high (negsuc n) = inr ((λ r. absurd (omega (arith, r.0))), ground arith)
range_cases low high (pos n) = elim (dec_le low n) [
  | no h ↦ inr ((λ r. h r.1), ground (arith, h))
  | yes h ↦ elim (dec_le n high) [
    | yes k ↦ inl ((refl, h, k), ground (arith, h, k))
    | no k ↦ inr ((λ r. k r.2), ground (arith, h, k))
  ]
]

-- The year goes through two conversions to `int16_t` and is converted once.
year_stored : (y : ℤ) → to_int16 (plus_ℕ (to_int16 (minus_ℕ y 1900)) 1900) ≡ to_int16 y
year_stored y = ground arith

-- The fields that the getters read.
pub record Reads (y m d h mi s : ℤ) (dt : RdbTime) : Type 0 where
  pub month : datetime_get_month dt ≡ m
  pub day : datetime_get_day dt ≡ d
  pub hour : datetime_get_hour dt ≡ h
  pub minute : datetime_get_minute dt ≡ mi
  pub second : datetime_get_second dt ≡ s
  pub year : IsInt16 y → datetime_get_year dt ≡ y

-- A value of an `uint8_t` is stored as it is.
stored8 : (high : ℕ) (low : ℕ) (a : ℤ) → high < 256 → InRange low high a → pos (bits8 a) ≡ a
stored8 high low (pos n) h r = ground (arith, h, r.2)
stored8 high low (negsuc n) h r = absurd (omega (arith, r.0))

stored_month : (m : ℤ) → InRange 1 12 m → pos (bits8 (plus_ℕ (minus_ℕ m 1) 1)) ≡ m
stored_month (pos n) r = ground (arith, r.1, r.2)
stored_month (negsuc n) r = absurd (omega (arith, r.0))

month_length-le : (y : ℤ) (m : ℕ) → 1 ≤ m → m ≤ 12 → month_length y m ≤ 31
month_length-le y zero a b = absurd (omega arith)
month_length-le y (suc zero) a b = omega arith
month_length-le y (suc (suc zero)) a b = ground arith
month_length-le y (suc (suc (suc m))) a b =
    let rest : get_or lengths (suc (suc m)) 0 ≤ 31 = later m in ground (arith, rest)
  where
    later : (k : ℕ) → get_or lengths (suc (suc k)) 0 ≤ 31
    later zero = omega arith
    later (suc zero) = omega arith
    later (suc (suc zero)) = omega arith
    later (suc (suc (suc zero))) = omega arith
    later (suc (suc (suc (suc zero)))) = omega arith
    later (suc (suc (suc (suc (suc zero))))) = omega arith
    later (suc (suc (suc (suc (suc (suc zero)))))) = omega arith
    later (suc (suc (suc (suc (suc (suc (suc zero))))))) = omega arith
    later (suc (suc (suc (suc (suc (suc (suc (suc zero)))))))) = omega arith
    later (suc (suc (suc (suc (suc (suc (suc (suc (suc zero))))))))) = omega arith
    later (suc (suc (suc (suc (suc (suc (suc (suc (suc (suc k)))))))))) = omega arith

-- The day is checked against the calendar.
check_day_lem :
    (y m d : ℤ)
    → InRange 1 12 m
    → datetime_check_day y m d ≡ check_range 1 (month_length y (pos_part m)) d
unfolding datetime_check_day days_in
check_day_lem y (negsuc n) d r = absurd (omega (arith, r.0))
check_day_lem y (pos n) d r = ap (λ o. check_days o d) (days_of_month-month_length y n r.1 r.2)

module _ (y m d h mi s : ℤ) where
  selected : Tm
  selected = record {
    tm_year = minus_ℕ y 1900;
    tm_mon = minus_ℕ m 1;
    tm_mday = d;
    tm_hour = h;
    tm_min = mi;
    tm_sec = s;
  }

  Reads-tm_to_obj : (v : IsDatetime y m d h mi s) → Reads y m d h mi s (tm_to_obj selected)
  unfolding tm_to_obj selected datetime_get_year datetime_get_month datetime_get_day
      datetime_get_hour datetime_get_minute datetime_get_second
  Reads-tm_to_obj v =
      let top = month_length-le y (pos_part m) v.month_range.1 v.month_range.2 in
      record {
        month = stored_month m v.month_range;
        day = stored8 (month_length y (pos_part m)) 1 d (omega (arith, top)) v.day_range;
        hour = stored8 23 0 h (omega arith) v.hour_range;
        minute = stored8 59 0 mi (omega arith) v.minute_range;
        second = stored8 60 0 s (omega arith) v.second_range;
        year = λ fits. year_stored y ∙ to_int16_fits y fits;
      }

  datetime_lem :
      (a b c e f : Option Error)
      → datetime_check_month m ≡ a
      → datetime_check_day y m d ≡ b
      → datetime_check_hour h ≡ c
      → datetime_check_minute mi ≡ e
      → datetime_check_second s ≡ f
      → select_datetime y m d h mi s
        ≡ unless_error a (
            unless_error b
              (unless_error c (unless_error e (unless_error f (ok (tm_to_obj selected))))))
  unfolding select_datetime selected
  datetime_lem a b c e f p q t u v = rw (← p, ← q, ← t, ← u, ← v) refl

select_datetime-IsDatetime :
    (y m d h mi s : ℤ)
    → (IsDatetime y m d h mi s
        × ((dt : RdbTime) × (select_datetime y m d h mi s ≡ ok dt) × Reads y m d h mi s dt))
      ⊎ ((¬ IsDatetime y m d h mi s)
          × (select_datetime y m d h mi s ≡ err type_constraint_violation))
unfolding datetime_check_month datetime_check_hour datetime_check_minute datetime_check_second
select_datetime-IsDatetime y m d h mi s =
    let run = datetime_lem y m d h mi s in
    let mine = datetime_check_day y m d in
    let hours = check_range 0 23 h in
    let minutes = check_range 0 59 mi in
    let seconds = check_range 0 60 s in
    elim (range_cases 1 12 m) [
      | inr (bad, k) ↦ inr (
        (λ v. bad v.month_range),
        run (some type_constraint_violation) mine hours minutes seconds k refl refl refl refl,
      )
      | inl (rm, k) ↦ elim (range_cases 1 (month_length y (pos_part m)) d) [
        | inr (bad, j) ↦ inr (
          (λ v. bad v.day_range),
          run none (some type_constraint_violation) hours minutes seconds k
              (check_day_lem y m d rm ∙ j) refl refl refl,
        )
        | inl (rd, j) ↦ elim (range_cases 0 23 h) [
          | inr (bad, i) ↦ inr (
            (λ v. bad v.hour_range),
            run none none (some type_constraint_violation) minutes seconds k
                (check_day_lem y m d rm ∙ j) i refl refl,
          )
          | inl (rh, i) ↦ elim (range_cases 0 59 mi) [
            | inr (bad, g) ↦ inr (
              (λ v. bad v.minute_range),
              run none none none (some type_constraint_violation) seconds k
                  (check_day_lem y m d rm ∙ j) i g refl,
            )
            | inl (rmi, g) ↦ elim (range_cases 0 60 s) [
              | inr (bad, f) ↦ inr (
                (λ v. bad v.second_range),
                run none none none none (some type_constraint_violation) k
                    (check_day_lem y m d rm ∙ j) i g f,
              )
              | inl (rs, f) ↦
                  let v : IsDatetime y m d h mi s = record {
                    month_range = rm;
                    day_range = rd;
                    hour_range = rh;
                    minute_range = rmi;
                    second_range = rs;
                  } in
                  inl (
                    v,
                    (
                      tm_to_obj (selected y m d h mi s),
                      run none none none none none k (check_day_lem y m d rm ∙ j) i g f,
                      Reads-tm_to_obj y m d h mi s v,
                    ),
                  )
            ]
          ]
        ]
      ]
    ]

-- What the selector returns for a date: its value, if the year less 1900 is an `int`.
abbrev pub Selects : ℤ → ℤ → ℤ → ℤ → ℤ → ℤ → Option (Result RdbTime) → Type 0
Selects y m d h mi s r =
    ((in_int32 (minus_ℕ y 1900) ≡ true)
      × ((dt : RdbTime) × (r ≡ some (ok dt)) × Reads y m d h mi s dt))
    ⊎ ((in_int32 (minus_ℕ y 1900) ≡ false) × (r ≡ none))

-- The selector of type `datetime`. If the arguments are a date of the calendar, Julian up to 1923
-- and Gregorian from 1924 on, and a time of day with at most 60 seconds, it returns a value from
-- which the getters read the arguments, but the year only where it fits an `int16_t`; where the
-- year less 1900 is no `int` the behaviour is undefined. Otherwise it reports a violated type
-- constraint.
pub datetime-IsDatetime :
    (y m d h mi s : ℤ)
    → (IsDatetime y m d h mi s × Selects y m d h mi s (datetime y m d h mi s))
      ⊎ ((¬ IsDatetime y m d h mi s)
          × (datetime y m d h mi s ≡ some (err type_constraint_violation)))
unfolding datetime
datetime-IsDatetime y m d h mi s = elim (select_datetime-IsDatetime y m d h mi s) [
  | inr (bad, e) ↦ inr (bad, rw (e, datetime) refl)
  | inl (v, (dt, e, reads)) ↦ inl (
    v,
    elim (Bool-cases (in_int32 (minus_ℕ y 1900))) [
      | inl fits ↦ inl (fits, (dt, rw (e, datetime) (rw fits refl), reads))
      | inr far ↦ inr (far, rw (e, datetime) (rw far refl))
    ],
  )
]
