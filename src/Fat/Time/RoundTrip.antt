-- ===== src/Fat/Time/RoundTrip.antt =====
-- Reading back a date and a time that `fill_time` wrote.
use Prim.Native.Nat.{bit_and}
use operating_system_fa_maf.Common.{◌+◌, ◌*◌, ◌/◌, ◌%◌, ◌-◌, ◌≤◌, ◌<◌, ◌≡◌, ◌∙◌, arith}
use operating_system_fa_maf.Fat.Os.{Tm}
use operating_system_fa_maf.Fat.Time.{fill_date, fill_time, unix_tm}
use operating_system_fa_maf.Fat.Time.Masks.{low4, low5, low6, low9, low11}
use operating_system_fa_maf.Common.Bits.{bit_or-shift}

-- A time that the format can hold: from 1980 to 2107, a leap second included.
pub record IsFatTime (t : Tm) : Type 0 where
  pub from_1980 : 80 ≤ t.tm_year
  pub to_2107 : t.tm_year < 208
  pub month : t.tm_mon < 12
  pub day : t.tm_mday < 32
  pub hour : t.tm_hour < 24
  pub minute : t.tm_min < 60
  pub second : t.tm_sec ≤ 60

fill_date-eq :
    (t : Tm) → IsFatTime t → fill_date t ≡ t.tm_mday + (t.tm_mon + 1) * 32 + (t.tm_year - 80) * 512
unfolding fill_date
fill_date-eq t v =
    let day : t.tm_mday % 65536 ≡ t.tm_mday = omega arith in
    let day' : bit_and t.tm_mday 31 ≡ t.tm_mday = low5 t.tm_mday ∙ omega arith in
    let mon : t.tm_mon % 65536 ≡ t.tm_mon = omega arith in
    let low : (t.tm_mday + (t.tm_mon + 1) * 32) % 65536 ≡ t.tm_mday + (t.tm_mon + 1) * 32 =
      omega arith in
    let year : (t.tm_year + 1900 + 65536 - 1980) % 65536 ≡ t.tm_year - 80 = omega arith in
    rw
      (
        day,
        day',
        mon,
        bit_or-shift 5 t.tm_mday (t.tm_mon + 1) (omega arith),
        low,
        low9 (t.tm_mday + (t.tm_mon + 1) * 32) (omega arith),
        year,
        bit_or-shift 9 (t.tm_mday + (t.tm_mon + 1) * 32) (t.tm_year - 80) (omega arith),
      )
      (omega arith)

fill_time-eq :
    (t : Tm) → IsFatTime t → fill_time t ≡ t.tm_sec / 2 + t.tm_min * 32 + t.tm_hour * 2048
unfolding fill_time
fill_time-eq t v =
    let sec : (t.tm_sec / 2) % 65536 ≡ t.tm_sec / 2 = omega arith in
    let sec' : bit_and (t.tm_sec / 2) 31 ≡ t.tm_sec / 2 = low5 (t.tm_sec / 2) ∙ omega arith in
    let minute : t.tm_min % 65536 ≡ t.tm_min = omega arith in
    let low : (t.tm_sec / 2 + t.tm_min * 32) % 65536 ≡ t.tm_sec / 2 + t.tm_min * 32 = omega arith in
    let hour : t.tm_hour % 65536 ≡ t.tm_hour = omega arith in
    rw
      (
        sec,
        sec',
        minute,
        bit_or-shift 5 (t.tm_sec / 2) t.tm_min (omega arith),
        low,
        low11 (t.tm_sec / 2 + t.tm_min * 32) (omega arith),
        hour,
        bit_or-shift 11 (t.tm_sec / 2 + t.tm_min * 32) t.tm_hour (omega arith),
      )
      (omega arith)

-- Every member of a time that the format can hold, from 1980 to 2107, is read back as it was, but
-- for the second, which is rounded down to an even one.
pub unix_tm-fill :
    (t : Tm)
    → IsFatTime t
    → unix_tm (fill_date t) (fill_time t) ≡ record t { tm_sec = t.tm_sec / 2 * 2 }
unfolding unix_tm
unix_tm-fill t v =
    let date = fill_date t in
    let time = fill_time t in
    let d : date ≡ t.tm_mday + (t.tm_mon + 1) * 32 + (t.tm_year - 80) * 512 = fill_date-eq t v in
    let h : time ≡ t.tm_sec / 2 + t.tm_min * 32 + t.tm_hour * 2048 = fill_time-eq t v in
    rw (low5 (fill_date t), low5 (fill_time t), low4 (fill_date t / 32), low6 (fill_time t / 32))
      (ground arith)
