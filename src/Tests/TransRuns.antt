-- ===== src/Tests/TransRuns.antt =====
-- Runs of the transactions of hammer2_flush.c.
use windows_hammer2_dfly.Common.{◌^◌, ◌<◌, ◌≤◌, ◌≡◌, ◌↔◌, refl, true, false, [], ◌∷◌, ok, arith}
use windows_hammer2_dfly.Trans.{
  TransFlags, Trans, entered, counted_in, of_word, word_of, trans_init, trans_done,
}
use windows_hammer2_dfly.Trans.System.{
  System, no_flags, start, sleep, Reached, peak, at_start, after,
}
use windows_hammer2_dfly.Trans.Safety.{flushes, Reached-exclusive, Reached-wakes}

abbrev flush_flag : TransFlags
flush_flag = record no_flags { isflush = true }

-- One thread flushes, and one waits to.
abbrev crowded : System
crowded = record {
  trans = record {
    flags = record {
      isflush = true;
      bufcache = false;
      sideq = false;
      waiting = true;
      rescan = false;
    };
    spare = false;
    count = 1;
  };
  active = true ∷ [];
  sleepers = 1;
}

crowded-Reached : Reached crowded
unfolding trans_init counted_in of_word word_of
crowded-Reached = after (after at_start (start flush_flag refl)) (sleep flush_flag refl)

crowded-peak : peak crowded-Reached < 2 ^ 24
unfolding peak crowded-Reached
crowded-peak = omega arith

Reached-exclusive_example : (flushes (true ∷ []) ≤ 1) × ((flushes (true ∷ []) ≡ 1) ↔ (true ≡ true))
Reached-exclusive_example = Reached-exclusive crowded crowded-Reached crowded-peak

Reached-wakes_example :
    (flushes (true ∷ []) ≡ 1)
    × ((t : Trans) × (trans_done crowded.trans flush_flag ≡ ok (t, true))
        × ((g : TransFlags) → trans_init t g ≡ entered (counted_in t g)))
Reached-wakes_example =
    Reached-wakes crowded crowded-Reached (omega arith) crowded-peak flush_flag refl
