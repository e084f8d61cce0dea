-- ===== src/Monitor/Query/Rows.antt =====
-- What the conditions select.
use icnprototype.Prelude.{
  ℕ, ◌+◌, ◌*◌, ◌<◌, ◌≡◌, refl, sym, ap, ◌∙◌, inl, inr, Bool-cases, false, ◌==◌, arith,
}
use icnprototype.Prelude.Int.{pos, negsuc, ◌-ℤ◌}
use icnprototype.Monitor.Requests.{Tm}
use icnprototype.Monitor.Query.{
  Clock, Row, date_of, time_of, eq_date, second_before, second_after, duration_rows,
}

-- A clock that shows a valid minute and second, the given number of seconds after midnight.
pub record Shows (c : Clock) (seconds : ℕ) : Type 0 where
  pub h : ℕ
  pub m : ℕ
  pub s : ℕ
  pub hour : c.hour ≡ pos h
  pub minute : c.minute ≡ pos m
  pub second : c.second ≡ pos s
  pub minute_lt : m < 60
  pub second_lt : s < 60
  pub total : h * 3600 + m * 60 + s ≡ seconds

-- `_time3` shows the second after the requested one (24:0:0 after the last of a day).
pub second_after-Shows : (t : Tm) (n : ℕ) → Shows (time_of t) n → Shows (second_after t) (n + 1)
unfolding second_after
second_after-Shows t n w = elim (Bool-cases (w.s == 59)) [
  | inl b ↦ elim (Bool-cases (w.m == 59)) [
    | inl c ↦
        rw (second_after, w.second, b, w.minute, c)
          (record {
            h = w.h + 1;
            m = 0;
            s = 0;
            hour = rw w.hour (ground arith);
            minute = refl;
            second = refl;
            minute_lt = omega arith;
            second_lt = omega arith;
            total = ground (arith, b, c, w.total);
          })
    | inr c ↦
        rw (second_after, w.second, b, w.minute, c)
          (record {
            h = w.h;
            m = w.m + 1;
            s = 0;
            hour = w.hour;
            minute = ground arith;
            second = refl;
            minute_lt = ground (arith, c, w.minute_lt);
            second_lt = omega arith;
            total = ground (arith, b, c, w.total);
          })
  ]
  | inr b ↦
      rw (second_after, w.second, b)
        (record {
          h = w.h;
          m = w.m;
          s = w.s + 1;
          hour = w.hour;
          minute = w.minute;
          second = ground arith;
          minute_lt = w.minute_lt;
          second_lt = ground (arith, b, w.second_lt);
          total = omega (arith, w.total);
        })
]

-- `_time1` never shows the second before the requested one.
pub second_before_wrong : (t : Tm) (n : ℕ) → Shows (time_of t) (n + 1) → ¬ Shows (second_before t) n
unfolding second_before
second_before_wrong t n w v = elim (Bool-cases (w.s == 0)) [
  | inl b ↦
      (let z : w.s ≡ 0 = ground (arith, b) in
        let e : (second_before t).second ≡ negsuc 0 = rw (second_before, w.second, z) refl in
        ground (arith, sym e ∙ v.second))
  | inr b ↦ elim (Bool-cases (w.m == 0)) [
    | inl c ↦
        (let z : w.m ≡ 0 = ground (arith, c) in
          let e : (second_before t).minute ≡ negsuc 0 =
            rw (second_before, w.second, b, w.minute, z) refl in
          ground (arith, sym e ∙ v.minute))
    | inr c ↦
        (let e : second_before t
              ≡ record { hour = t.tm_hour -ℤ pos 1; minute = pos 59; second = pos 59 } =
            rw (second_before, w.second, b, w.minute, c) refl in
          let hour : pos w.h -ℤ pos 1 ≡ pos v.h =
            ap (λ x. x -ℤ pos 1) (sym w.hour) ∙ sym (ap (λ k. k.hour) e) ∙ v.hour in
          let h : w.h ≡ v.h + 1 = ground (arith, hour) in
          let m : v.m ≡ 59 = ground (arith, sym (ap (λ k. k.minute) e) ∙ v.minute) in
          let s : v.s ≡ 59 = ground (arith, sym (ap (λ k. k.second) e) ∙ v.second) in
          ground (arith, c, h, m, s, v.total, w.total))
  ]
]

-- For a request from one day to another, no row of a third day is selected, also if its day lies between.
pub duration_rows_days :
    (start end : Tm) (row : Row)
    → eq_date (date_of start) (date_of end) ≡ false
    → eq_date row.date (date_of start) ≡ false
    → eq_date row.date (date_of end) ≡ false
    → duration_rows start end row ≡ false
unfolding duration_rows
duration_rows_days start end row a b c = rw (duration_rows, a, b, c) refl
