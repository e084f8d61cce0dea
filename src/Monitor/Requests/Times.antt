-- ===== src/Monitor/Requests/Times.antt =====
-- Reading back a written time.
use icnprototype.Prelude.{
  ℕ, ◌+◌, ◌*◌, ◌<◌, ◌≤◌, ◌^◌, ◌≡◌, ◌⊎◌, inl, inr, refl, true, false, List, [], ◌∷◌, ◌++◌, some,
  ◌==◌, arith,
}
use icnprototype.Prelude.Int.{pos}
use icnprototype.Monitor.Requests.{next_digit, read_field, read_last, insert_time}

abbrev pub AreDigits : List ℕ → Type 0
AreDigits [] = Unit
AreDigits (d ∷ ds) = (d < 10) × AreDigits ds

-- The characters of the digits, and their value behind `n`.
abbrev pub written : List ℕ → List ℕ
written [] = []
written (d ∷ ds) = (48 + d) ∷ written ds

abbrev pub decimal : ℕ → List ℕ → ℕ
decimal n [] = n
decimal n (d ∷ ds) = decimal (n * 10 + d) ds

pub decimal-ge : (n : ℕ) (ds : List ℕ) → n ≤ decimal n ds
decimal-ge n [] = omega arith
decimal-ge n (d ∷ ds) = omega (arith, decimal-ge (n * 10 + d) ds)

-- Digits of a number that the reading of it does not overflow at.
pub record IsNumber (ds : List ℕ) : Type 0 where
  pub digits : AreDigits ds
  pub fits : decimal 0 ds + 48 < 2 ^ 31

pub next_digit_lem :
    (n d : ℕ) → n * 10 + d + 48 < 2 ^ 31 → next_digit (pos n) (48 + d) ≡ some (pos (n * 10 + d))
unfolding next_digit
next_digit_lem n d h = ground (arith, h)

-- No digit is a separator.
pub not_separator :
    (separator d : ℕ)
    → (separator < 48) ⊎ (57 < separator)
    → d < 10
    → ((48 + d) == separator) ≡ false
not_separator separator d h k = ground arith

pub ==-same : (a : ℕ) → (a == a) ≡ true
==-same a = ground arith

pub read_field-written :
    (separator n : ℕ) (ds rest : List ℕ)
    → (separator < 48) ⊎ (57 < separator)
    → AreDigits ds
    → decimal n ds + 48 < 2 ^ 31
    → read_field separator (pos n) (written ds ++ (separator ∷ rest))
      ≡ some (pos (decimal n ds), rest)
unfolding read_field
read_field-written separator n [] rest h k f = rw (==-same separator) refl
read_field-written separator n (d ∷ ds) rest h (a, k) f =
    rw
      (
        not_separator separator d h a,
        next_digit_lem n d (omega (arith, f, decimal-ge (n * 10 + d) ds)),
      )
      (read_field-written separator (n * 10 + d) ds rest h k f)

read_last-written :
    (n : ℕ) (ds : List ℕ)
    → decimal n ds + 48 < 2 ^ 31
    → read_last (pos n) (written ds) ≡ some (pos (decimal n ds))
unfolding read_last
read_last-written n [] f = refl
read_last-written n (d ∷ ds) f =
    rw (next_digit_lem n d (omega (arith, f, decimal-ge (n * 10 + d) ds)))
      (read_last-written (n * 10 + d) ds f)

-- The text of a time whose six numbers are written in decimal digits.
abbrev pub time_text : (year mon mday hour min sec : List ℕ) → List ℕ
time_text year mon mday hour min sec =
    written year
    ++ (b'/' ∷ written mon
        ++ (b'/' ∷ written mday
            ++ (b',' ∷ written hour ++ (b':' ∷ written min ++ (b':' ∷ written sec)))))

-- `insert_time` reads back the six numbers, which fit, of a time that is written in decimal digits, with the
-- separators `/`, `/`, `,`, `:` and `:`.
pub insert_time_lem :
    (year mon mday hour min sec : List ℕ)
    → IsNumber year
    → IsNumber mon
    → IsNumber mday
    → IsNumber hour
    → IsNumber min
    → IsNumber sec
    → insert_time (time_text year mon mday hour min sec)
      ≡ some (record {
        tm_sec = pos (decimal 0 sec);
        tm_min = pos (decimal 0 min);
        tm_hour = pos (decimal 0 hour);
        tm_mday = pos (decimal 0 mday);
        tm_mon = pos (decimal 0 mon);
        tm_year = pos (decimal 0 year);
      })
unfolding insert_time
insert_time_lem year mon mday hour min sec a b c d e f =
    rw
      (
        read_field-written b'/' 0 year _ (inl (omega arith)) a.digits a.fits,
        read_field-written b'/' 0 mon _ (inl (omega arith)) b.digits b.fits,
        read_field-written b',' 0 mday _ (inl (omega arith)) c.digits c.fits,
        read_field-written b':' 0 hour _ (inr (omega arith)) d.digits d.fits,
        read_field-written b':' 0 min _ (inr (omega arith)) e.digits e.fits,
        read_last-written 0 sec f.fits,
      )
      refl
