-- ===== src/Monitor/Requests.antt =====
-- The text of a request: `insert_time` of NetworkMonitoringTools/stats_send_ver_test1/local_inform.c,
-- which reads `year/month/day,hour:minute:second`.
pub mod Times
use icnprototype.Prelude.{
  ℕ, ◌+◌, ◌*◌, ◌^◌, ◌==◌, ◌&&◌, Bool, ltb, leb, List, [], ◌∷◌, Option, none, some, if◌then◌else◌,
}
use icnprototype.Prelude.Int.{ℤ, pos, negsuc, pos_part, neg_part, ◌+ℤ◌, ◌-ℤ◌}

infixl 20 ◌>>=◌
abbrev pub ◌>>=◌ {ℓ κ} : {A : Type ℓ} → {B : Type κ} → Option A → (A → Option B) → Option B
none >>= f = none
some a >>= f = f a

-- `struct _TM`
pub record Tm : Type 0 where
  pub tm_sec : ℤ
  pub tm_min : ℤ
  pub tm_hour : ℤ
  pub tm_mday : ℤ
  pub tm_mon : ℤ
  pub tm_year : ℤ

abbrev pub times_ten : ℤ → ℤ
times_ten (pos n) = pos (n * 10)
times_ten (negsuc n) = negsuc (n * 10 + 9)

abbrev pub fits_int : ℤ → Bool
fits_int z = ltb (pos_part z) (2 ^ 31) && leb (neg_part z) (2 ^ 31)

-- `num = num * 10 + (int)str[i] - 48`, where each of the three steps fits an int; `none` for an overflow. The
-- characters are taken to be ASCII.
unfoldable pub next_digit : ℤ → ℕ → Option ℤ
next_digit num c =
    let tens = times_ten num in
    let sum = tens +ℤ pos c in
    let digit = sum -ℤ pos 48 in
    if fits_int tens && (fits_int sum && fits_int digit) then some digit else none

-- A loop up to a separator, and the text behind it; `none` where the loop runs past the string's end.
pub read_field : ℕ → ℤ → List ℕ → Option (ℤ × List ℕ)
unfolding next_digit
read_field separator num [] = none
read_field separator num (c ∷ str) =
    if c == separator
    then some (num, str)
    else next_digit num c >>= (λ n. read_field separator n str)

-- The last loop, up to the string's end.
pub read_last : ℤ → List ℕ → Option ℤ
read_last num [] = some num
read_last num (c ∷ str) = next_digit num c >>= (λ n. read_last n str)

unfoldable pub insert_time : List ℕ → Option Tm
unfolding read_field read_last
insert_time str = do
  (year, str) ← read_field b'/' (pos 0) str
  (mon, str) ← read_field b'/' (pos 0) str
  (mday, str) ← read_field b',' (pos 0) str
  (hour, str) ← read_field b':' (pos 0) str
  (min, str) ← read_field b':' (pos 0) str
  sec ← read_last (pos 0) str
  some (record {
    tm_sec = sec;
    tm_min = min;
    tm_hour = hour;
    tm_mday = mday;
    tm_mon = mon;
    tm_year = year;
  })
