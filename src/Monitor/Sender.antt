-- ===== src/Monitor/Sender.antt =====
-- The program that asks the monitor for timers: local_sender.c of
-- NetworkMonitoringTools/stats_send_ver_test1. It reads the lines of timer.lst, such as
-- `0 172.168.6.1 2015/6/10,21:15:15`, and sends them as one datagram.
pub mod Written
use icnprototype.Prelude.{
  ℕ, zero, suc, ◌+◌, ◌-◌, ◌*◌, ◌^◌, ◌==◌, List, [], ◌∷◌, Option, none, some, length, ltb,
  if◌then◌else◌,
}
use icnprototype.Prelude.Int.{ℤ, pos, negsuc, ◌-ℤ◌}
use icnprototype.Monitor.Timer.{TimerMessage}
use icnprototype.Monitor.Requests.{Tm, next_digit, read_field}

infixl 20 ◌>>=◌
abbrev pub ◌>>=◌ {ℓ κ} : {A : Type ℓ} → {B : Type κ} → Option A → (A → Option B) → Option B
none >>= f = none
some a >>= f = f a

-- The entries of `timer_message`, and the bytes of `ip`.
abbrev pub max_timers : ℕ
max_timers = 64

abbrev pub size_ip : ℕ
size_ip = 16

-- An `int` by its bits.
pub to_bits : ℤ → ℕ
to_bits (pos n) = n
to_bits (negsuc n) = 2 ^ 32 - 1 - n

-- The loop up to the space behind the flag, with the position `i` of its end.
pub read_flag : ℕ → ℤ → List ℕ → Option (ℤ × ℕ × List ℕ)
read_flag i num [] = none
read_flag i num (c ∷ str) =
    if c == b' ' then some (num, i, str) else next_digit num c >>= (λ n. read_flag (i + 1) n str)

-- The characters up to the next space.
pub read_ip : List ℕ → Option (List ℕ × List ℕ)
read_ip [] = none
read_ip (c ∷ str) = if c == b' ' then some ([], str) else read_ip str >>= (λ r. some (c ∷ r.0, r.1))

-- The string in `ip` after its characters were written from place `i` - 1 on and a zero byte behind them, `i`
-- being the length of the flag: from place 0 on for a flag of one character. Behind a zero byte it is empty.
-- `none` where a write is outside of `ip`.
pub put_ip : ℕ → List ℕ → Option (List ℕ)
put_ip zero text = none
put_ip (suc zero) text = if ltb (length text) size_ip then some text else none
put_ip (suc (suc i)) text = if ltb (suc i + length text) size_ip then some [] else none

-- The last loop, up to the newline or the string's end; it looks for the end only behind a character.
pub read_sec : ℤ → List ℕ → Option ℤ
read_sec num [] = next_digit num 0
read_sec num (c ∷ []) = if c == b'\n' then some num else next_digit num c
read_sec num (c ∷ d ∷ str) =
    if c == b'\n' then some num else next_digit num c >>= (λ n. read_sec n (d ∷ str))

-- One line; `none` where a loop runs past the string's end.
pub read_timer : List ℕ → Option (TimerMessage Tm)
unfolding to_bits read_flag read_ip put_ip read_sec
read_timer str = do
  (flag, i, str) ← read_flag 0 (pos 0) str
  (text, str) ← read_ip str
  ip ← put_ip i text
  (year, str) ← read_field b'/' (pos 0) str
  (mon, str) ← read_field b'/' (pos 0) str
  (mday, str) ← read_field b',' (pos 0) str
  (hour, str) ← read_field b':' (pos 0) str
  (min, str) ← read_field b':' (pos 0) str
  sec ← read_sec (pos 0) str
  some (record {
    ip = ip;
    flag = to_bits flag;
    t = record {
      tm_sec = sec;
      tm_min = min;
      tm_hour = hour;
      tm_mday = mday;
      tm_mon = mon -ℤ pos 1;
      tm_year = year -ℤ pos 1900;
    };
  })

-- The lines of the file from the `j`-th entry on; the file is taken to have a line, and each of them fewer
-- than 1024 characters. `none` also where there are more lines than entries.
pub read_timers : ℕ → List (List ℕ) → Option (List (TimerMessage Tm))
unfolding read_timer
read_timers j [] = some []
read_timers j (str ∷ lines) =
    if ltb j max_timers
    then read_timer str >>= (λ m. read_timers (suc j) lines >>= λ ms. some (m ∷ ms))
    else none

-- A string that `fgets` has not written is read if there is no line.
pub get_timer_message : List (List ℕ) → Option (List (TimerMessage Tm))
unfolding read_timers
get_timer_message [] = none
get_timer_message (str ∷ lines) = read_timers 0 (str ∷ lines)

-- An entry has 80 bytes: `ip`, `flag` and, after 4 bytes between, `t`.
abbrev pub size_timer_message : ℕ
size_timer_message = 80

-- `send_buf` without its type, and `send_len`, the number of its bytes that are sent.
pub record SendBuf : Type 0 where
  pub count : ℕ
  pub timer_message : List (TimerMessage Tm)
  pub send_len : ℕ

-- `send_len` leaves out one of the two numbers before the entries, so that the last 4 bytes are not sent: the end
-- of the last `t.tm_zone`.
pub send : List (List ℕ) → Option SendBuf
unfolding get_timer_message
send lines = get_timer_message lines >>= λ ms. some (record {
  count = length ms;
  timer_message = ms;
  send_len = 4 + length ms * size_timer_message;
})
