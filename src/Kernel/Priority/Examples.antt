-- ===== src/Kernel/Priority/Examples.antt =====
-- Two processes, of which one is running.
use operating_system_fa_maf.Common.{refl, none}
use operating_system_fa_maf.Common.Int.{pos}
use operating_system_fa_maf.Kernel.Priority.{Proc, running, yield, schedule}
use operating_system_fa_maf.Kernel.Priority.Steps.{
  Procs, at, Reach, here, next, yields, pick, IsLevel, Reach-IsRanked,
}

abbrev busy : Proc
busy = record {
  state = running;
  pid = 1;
  chan = none;
  schedpick = pos 4;
  lastexec = 10;
  priority = pos 0;
}

abbrev table : Procs
table i = busy

-- The process behind one quantum at the lowest level.
abbrev again : Proc
again = record busy { schedpick = pos 5; lastexec = 12 }

abbrev later : Procs
later = at (at table 0 yield) 0 (λ p. again)

walk : Reach table later
unfolding yield schedule
walk = next (next here (yields 0 refl)) (pick 0 12 again refl refl)

Reach-IsRanked_example : IsLevel (later 0).priority
Reach-IsRanked_example = Reach-IsRanked (λ j. (refl, refl)) walk 0
