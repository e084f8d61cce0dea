-- ===== src/Monitor/Tests/Inform.antt =====
-- A request for data on a small input.
use icnprototype.Prelude.{ℕ, ◌+◌, ◌*◌, ◌≡◌, refl, [], ◌∷◌, List, some, map, arith}
use icnprototype.Prelude.Int.{pos}
use icnprototype.Monitor.Requests.{Tm, insert_time}
use icnprototype.Monitor.Requests.Times.{time_text}
use icnprototype.Monitor.Inform.{Asked, Tail, zero_tail, scan, content_of, codes, inform}
use icnprototype.Monitor.Inform.Bits.{ones}
use icnprototype.Monitor.Inform.Blocks.{sum, Fit}
use icnprototype.Monitor.Inform.Packed.{
  Asks, middle_of, tails, asks_for, AreAnswered, inform_answered,
}

-- 2015/6/10,21:15:d5
abbrev at_second : ℕ → List ℕ
at_second d =
    time_text (2 ∷ 0 ∷ 1 ∷ 5 ∷ []) (6 ∷ []) (1 ∷ 0 ∷ []) (2 ∷ 1 ∷ []) (1 ∷ 5 ∷ []) (d ∷ 5 ∷ [])

abbrev time_of : ℕ → Tm
time_of d = record {
  tm_sec = pos (d * 10 + 5);
  tm_min = pos 15;
  tm_hour = pos 21;
  tm_mday = pos 10;
  tm_mon = pos 6;
  tm_year = pos 2015;
}

abbrev question : Asked
question = record {
  ip = codes "172.168.6.1";
  information = codes "rtt_avg tx_bytes";
  type = codes "peak";
  start_time = at_second 1;
  end_time = at_second 4;
}

abbrev entry : Tail
entry = record { content_type = 2; start = time_of 1; end = time_of 4 }

question-Asks : Asks question 96 2 entry
unfolding scan content_of insert_time
question-Asks = record {
  scanned = refl;
  kind = refl;
  duration = omega arith;
  starts = refl;
  ends = refl;
  room = omega arith;
}

inform_answered_example :
    (ks : List ℕ) × (inform question (codes "pc-3") 20 zero_tail
      ≡ some (map (asks_for question 96 2 entry question-Asks (codes "pc-3")) ks))
    × Fit
        (middle_of question 96)
        (tails question 96 2 entry question-Asks (codes "pc-3"))
        (codes "pc-3")
        ks
    × (sum ks ≡ 20)
    × AreAnswered question 96 2 entry question-Asks (codes "pc-3") (pos 0) ks
unfolding ones
inform_answered_example =
    inform_answered question 96 2 entry question-Asks (codes "pc-3") 20 zero_tail (pos 0) refl refl
