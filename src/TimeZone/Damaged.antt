-- ===== src/TimeZone/Damaged.antt =====
-- TimeZone.cc: a zone from a file that the reader does not take.
use chat.Prelude.{◌≡◌, refl, ap, Bool, true, Option, none, some, ◌>>=◌, if◌then◌else◌}
use chat.Prelude.Int.{ℤ}
use chat.TimeZone.{Tm, Data, find_localtime, is_before_all, to_local_time}
use chat.TimeZone.File.{
  Bytes, Counts, empty, read_counts, with_counts, read_time_zone_file, open_zone,
}

-- A file whose head is damaged or too short gives a zone all the same, with nothing in it, and the
-- local time of any moment in that zone reads the first element of an empty vector.
pub open_zone-damaged :
    (gmtime : ℤ → Tm) (timegm : Tm → ℤ) (bytes : Bytes)
    → read_counts bytes ≡ none
    → (open_zone (some bytes) ≡ some (some empty))
      × ((t : ℤ) → to_local_time gmtime timegm empty t ≡ none)
unfolding open_zone read_time_zone_file with_counts to_local_time find_localtime is_before_all
open_zone-damaged gmtime timegm bytes h = (ap opened h, λ t. refl)
  where
    as_true : Data → Option (Bool × Data)
    as_true d = some (true, d)

    kept : Bool × Data → Option (Option Data)
    kept r = some (if r.0 then some r.1 else none)

    opened : Option (Counts × Bytes) → Option (Option Data)
    opened o = with_counts o empty >>= as_true >>= kept
