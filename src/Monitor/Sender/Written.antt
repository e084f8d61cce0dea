-- ===== src/Monitor/Sender/Written.antt =====
-- Reading back the lines of timers.
use icnprototype.Prelude.{
  ℕ, suc, ◌+◌, ◌*◌, ◌^◌, ◌<◌, ◌≡◌, ◌≢◌, inl, inr, refl, ap, ◌==◌, false, List, [], ◌∷◌, ◌++◌, ◌≤◌,
  some, length, map, lt→ltb, arith,
}
use icnprototype.Prelude.Int.{pos, ◌-ℤ◌}
use icnprototype.Monitor.Timer.{TimerMessage}
use icnprototype.Monitor.Requests.{Tm}
use icnprototype.Monitor.Requests.Times.{
  AreDigits, IsNumber, written, decimal, decimal-ge, next_digit_lem, not_separator,
  read_field-written,
}
use icnprototype.Monitor.Sender.{
  ◌>>=◌, to_bits, read_flag, read_ip, put_ip, read_sec, read_timer, read_timers, get_timer_message,
  max_timers, size_ip, size_timer_message, send,
}

-- A line of the file, in parts: the flag of one digit, the characters of the address, and the digits of the
-- numbers of the time.
pub record Line : Type 0 where
  pub flag : ℕ
  pub ip : List ℕ
  pub year : List ℕ
  pub mon : List ℕ
  pub mday : List ℕ
  pub hour : List ℕ
  pub min : List ℕ
  pub sec : List ℕ

abbrev pub line_text : Line → List ℕ
line_text l =
    (48 + l.flag) ∷ b' ' ∷ l.ip
    ++ (b' ' ∷ written l.year
        ++ (b'/' ∷ written l.mon
            ++ (b'/' ∷ written l.mday
                ++ (b',' ∷ written l.hour
                    ++ (b':' ∷ written l.min ++ (b':' ∷ written l.sec ++ (b'\n' ∷ [])))))))

-- No space, newline or end of a string.
abbrev pub IsText : List ℕ → Type 0
IsText [] = Unit
IsText (c ∷ cs) = (c ≢ b' ') × (c ≢ b'\n') × (c ≢ 0) × IsText cs

-- A line that `fgets` reads as a whole, with an address that fits `ip` and numbers that fit an int.
pub record IsLine (l : Line) : Type 0 where
  pub one_digit : l.flag < 10
  pub text : IsText l.ip
  pub short : length l.ip < size_ip
  pub years : IsNumber l.year
  pub mons : IsNumber l.mon
  pub mdays : IsNumber l.mday
  pub hours : IsNumber l.hour
  pub mins : IsNumber l.min
  pub secs : IsNumber l.sec
  pub whole : length (line_text l) < 1024

-- The message that a line asks for.
abbrev pub message_of : Line → TimerMessage Tm
message_of l = record {
  ip = l.ip;
  flag = l.flag;
  t = record {
    tm_sec = pos (decimal 0 l.sec);
    tm_min = pos (decimal 0 l.min);
    tm_hour = pos (decimal 0 l.hour);
    tm_mday = pos (decimal 0 l.mday);
    tm_mon = pos (decimal 0 l.mon) -ℤ pos 1;
    tm_year = pos (decimal 0 l.year) -ℤ pos 1900;
  };
}

read_flag-digit :
    (d : ℕ) (rest : List ℕ)
    → d < 10
    → read_flag 0 (pos 0) ((48 + d) ∷ b' ' ∷ rest) ≡ some (pos d, 1, rest)
unfolding read_flag
read_flag-digit d rest h =
    rw (not_separator b' ' d (inl (omega arith)) h, next_digit_lem 0 d (omega arith))
      (ap (λ n. some (pos n, 1, rest)) (omega arith))

==-ne : (a b : ℕ) → a ≢ b → (a == b) ≡ false
==-ne a b h = ground arith

read_ip-text :
    (text rest : List ℕ) → IsText text → read_ip (text ++ (b' ' ∷ rest)) ≡ some (text, rest)
unfolding read_ip
read_ip-text [] rest h = refl
read_ip-text (c ∷ cs) rest (h, k, l, m) = rw (==-ne c b' ' h, read_ip-text cs rest m) refl

read_sec-written :
    (n : ℕ) (ds : List ℕ)
    → AreDigits ds
    → decimal n ds + 48 < 2 ^ 31
    → read_sec (pos n) (written ds ++ (b'\n' ∷ [])) ≡ some (pos (decimal n ds))
unfolding read_sec
read_sec-written n [] h f = refl
read_sec-written n (d ∷ []) (a, h) f =
    rw (not_separator b'\n' d (inl (omega arith)) a, next_digit_lem n d (omega (arith, f))) refl
read_sec-written n (d ∷ e ∷ ds) (a, h) f =
    rw
      (
        not_separator b'\n' d (inl (omega arith)) a,
        next_digit_lem n d (omega (arith, f, decimal-ge (n * 10 + d) (e ∷ ds))),
      )
      (read_sec-written (n * 10 + d) (e ∷ ds) h f)

pub read_timer-line : (l : Line) → IsLine l → read_timer (line_text l) ≡ some (message_of l)
unfolding read_timer put_ip to_bits
read_timer-line l h =
    rw
      (
        read_flag-digit l.flag _ h.one_digit,
        read_ip-text l.ip _ h.text,
        lt→ltb (length l.ip) size_ip h.short,
        read_field-written b'/' 0 l.year _ (inl (omega arith)) h.years.digits h.years.fits,
        read_field-written b'/' 0 l.mon _ (inl (omega arith)) h.mons.digits h.mons.fits,
        read_field-written b',' 0 l.mday _ (inl (omega arith)) h.mdays.digits h.mdays.fits,
        read_field-written b':' 0 l.hour _ (inr (omega arith)) h.hours.digits h.hours.fits,
        read_field-written b':' 0 l.min _ (inr (omega arith)) h.mins.digits h.mins.fits,
        read_sec-written 0 l.sec h.secs.digits h.secs.fits,
      )
      refl

abbrev pub AreLines : List Line → Type 0
AreLines [] = Unit
AreLines (l ∷ ls) = IsLine l × AreLines ls

read_timers-lines :
    (j : ℕ) (ls : List Line)
    → AreLines ls
    → j + length ls ≤ max_timers
    → read_timers j (map line_text ls) ≡ some (map message_of ls)
unfolding read_timers
read_timers-lines j [] h k = refl
read_timers-lines j (l ∷ ls) (h, hs) k =
    rw
      (
        lt→ltb j max_timers (omega arith),
        read_timer-line l h,
        read_timers-lines (suc j) ls hs (omega arith),
      )
      refl

-- A file of at least one line and at most 64 is read as the messages that its lines ask for.
pub send-lines :
    (l : Line) (ls : List Line)
    → AreLines (l ∷ ls)
    → length (l ∷ ls) ≤ max_timers
    → send (map line_text (l ∷ ls))
      ≡ some (record {
        count = length (map message_of (l ∷ ls));
        timer_message = map message_of (l ∷ ls);
        send_len = 4 + length (map message_of (l ∷ ls)) * size_timer_message;
      })
unfolding send get_timer_message
send-lines l ls h k =
    ap
      (λ o. o >>= λ ms. some (record {
        count = length ms;
        timer_message = ms;
        send_len = 4 + length ms * size_timer_message;
      }))
      (read_timers-lines 0 (l ∷ ls) h (omega arith))
