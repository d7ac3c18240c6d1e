-- ===== src/Fat/Time.antt =====
-- The 16-bit dates and times of directory entries: `fill_time` and `time_to_unix_time` of
-- lab4/esqueleto/fat_util.c. `gmtime_r` and `mktime` are the C library's: the model starts from the
-- broken-down time that the first fills in and ends with the one that the second is handed.
pub mod Masks
pub mod RoundTrip
mod Examples
use Prim.Native.Nat.{bit_and, bit_or}
use operating_system_fa_maf.Common.{ℕ, ◌+◌, ◌-◌, ◌*◌, ◌/◌, ◌%◌, ◌^◌}
use operating_system_fa_maf.Fat.Os.{Tm}

-- A `le16`; `year - 1980` wraps below 1980.
unfoldable pub fill_date : Tm → ℕ
fill_date t =
    let day = bit_and (t.tm_mday % 2 ^ 16) 0x1f in
    let month = bit_and (bit_or day ((t.tm_mon % 2 ^ 16 + 1) * 2 ^ 5) % 2 ^ 16) 0x1ff in
    bit_or month (((t.tm_year + 1900 + 2 ^ 16 - 1980) % 2 ^ 16) * 2 ^ 9) % 2 ^ 16

unfoldable pub fill_time : Tm → ℕ
fill_time t =
    let second = bit_and ((t.tm_sec / 2) % 2 ^ 16) 0x1f in
    let minute = bit_and (bit_or second ((t.tm_min % 2 ^ 16) * 2 ^ 5) % 2 ^ 16) 0x7ff in
    bit_or minute ((t.tm_hour % 2 ^ 16) * 2 ^ 11) % 2 ^ 16

-- What `time_to_unix_time` hands to `mktime`; each member is computed in `u16`.
unfoldable pub unix_tm : (date time : ℕ) → Tm
unix_tm date time = record {
  tm_sec = (bit_and time 0x1f * 2) % 2 ^ 16;
  tm_min = bit_and (time / 2 ^ 5) 0x3f;
  tm_hour = time / 2 ^ 11;
  tm_mday = bit_and date 0x1f;
  tm_mon = (bit_and (date / 2 ^ 5) 0xf + 2 ^ 16 - 1) % 2 ^ 16;
  tm_year = (date / 2 ^ 9 + (1980 - 1900)) % 2 ^ 16;
}
