-- ===== src/Fat/Time/Examples.antt =====
-- The time of the small operating system, to the second.
use operating_system_fa_maf.Common.{◌≡◌, arith}
use operating_system_fa_maf.Fat.Time.{fill_date, fill_time, unix_tm}
use operating_system_fa_maf.Fat.Time.RoundTrip.{unix_tm-fill}
use operating_system_fa_maf.Fat.Sample.{small_time}

unix_tm-fill_example :
    unix_tm (fill_date small_time) (fill_time small_time) ≡ record small_time { tm_sec = 30 }
unix_tm-fill_example = unix_tm-fill small_time (record {
  from_1980 = omega arith;
  to_2107 = omega arith;
  month = omega arith;
  day = omega arith;
  hour = omega arith;
  minute = omega arith;
  second = omega arith;
})
