-- ===== src/TimeZone/File.antt =====
-- TimeZone.cc: the reader of zone files, from the bytes of the file. `none` is a `logic_error` in the
-- functions that throw one, and in `read_time_zone_file`, which catches it, undefined behaviour: an
-- index out of range or an array of negative size.
pub mod Round
use chat.Prelude.{
  ℕ, zero, suc, ◌+◌, ◌^◌, Bool, true, false, not, ◌&&◌, Option, none, some, List, [], ◌∷◌, ◌++◌,
  if◌then◌else◌, ◌==◌, leb, ltb, take, drop, get_elem?, length, ◌>>=◌, ◌>>◌, assert, signed32,
  network_value32,
}
use chat.Prelude.Int.{ℤ, pos, negsuc, ◌+ℤ◌, pos_part}
use chat.TimeZone.{Transition, Localtime, Data}

abbrev pub Bytes : Type 0
Bytes = List ℕ

unfoldable pub read_bytes : ℕ → Bytes → Option (Bytes × Bytes)
read_bytes n bytes = if leb n (length bytes) then some (take n bytes, drop n bytes) else none

unfoldable pub read_int32 : Bytes → Option (ℤ × Bytes)
read_int32 bytes = do got ← read_bytes 4 bytes; some (signed32 (network_value32 got.0), got.1)

unfoldable pub read_uint8 : Bytes → Option (ℕ × Bytes)
read_uint8 [] = none
read_uint8 (x ∷ bytes) = some (x, bytes)

pub record Counts : Type 0 where
  pub isgmtcnt : ℤ
  pub isstdcnt : ℤ
  pub leapcnt : ℤ
  pub timecnt : ℤ
  pub typecnt : ℤ
  pub charcnt : ℤ

-- "TZif".
abbrev pub is_head : Bytes → Bool
is_head (a ∷ b ∷ c ∷ d ∷ []) = (a == 84) && ((b == 90) && ((c == 105) && (d == 102)))
is_head _ = false

unfoldable pub read_counts : Bytes → Option (Counts × Bytes)
read_counts bytes = do
  head ← read_bytes 4 bytes
  assert (is_head head.0)
  version ← read_bytes 1 head.1
  reserved ← read_bytes 15 version.1
  isgmtcnt ← read_int32 reserved.1
  isstdcnt ← read_int32 isgmtcnt.1
  leapcnt ← read_int32 isstdcnt.1
  timecnt ← read_int32 leapcnt.1
  typecnt ← read_int32 timecnt.1
  charcnt ← read_int32 typecnt.1
  some (
    record {
      isgmtcnt = isgmtcnt.0;
      isstdcnt = isstdcnt.0;
      leapcnt = leapcnt.0;
      timecnt = timecnt.0;
      typecnt = typecnt.0;
      charcnt = charcnt.0;
    },
    charcnt.1,
  )

unfoldable pub read_trans : ℕ → Bytes → Option (List ℤ × Bytes)
read_trans zero bytes = some ([], bytes)
read_trans (suc n) bytes = do x ← read_int32 bytes; xs ← read_trans n x.1; some (x.0 ∷ xs.0, xs.1)

unfoldable pub read_indices : ℕ → Bytes → Option (List ℕ × Bytes)
read_indices zero bytes = some ([], bytes)
read_indices (suc n) bytes = do
  x ← read_uint8 bytes
  xs ← read_indices n x.1
  some (x.0 ∷ xs.0, xs.1)

-- `trans.reserve` of a negative number throws a `length_error`, which is a `logic_error`.
unfoldable pub read_times : ℤ → Bytes → Option (List ℤ × List ℕ × Bytes)
read_times (negsuc n) bytes = none
read_times (pos n) bytes = do
  trans ← read_trans n bytes
  indices ← read_indices n trans.1
  some (trans.0, indices.0, indices.1)

unfoldable pub read_localtime : Bytes → Option (Localtime × Bytes)
read_localtime bytes = do
  gmtoff ← read_int32 bytes
  isdst ← read_uint8 gmtoff.1
  abbrind ← read_uint8 isdst.1
  some (
    record { gmt_offset = gmtoff.0; is_dst = not (isdst.0 == 0); arrb_idx = abbrind.0 },
    abbrind.1,
  )

-- The local times that were pushed, and the rest of the file if none of the reads threw.
unfoldable pub read_localtimes : ℕ → Bytes → List Localtime × Option Bytes
read_localtimes zero bytes = ([], some bytes)
read_localtimes (suc n) bytes = elim (read_localtime bytes) [
  | none ↦ ([], none)
  | some l ↦ let rest = read_localtimes n l.1 in (l.0 ∷ rest.0, rest.1)
]

unfoldable pub add_transitions : List ℤ → List ℕ → Data → Option Data
add_transitions (t ∷ trans) (i ∷ indices) d = do
  l ← get_elem? d.localtimes i
  let made : Transition = record { gmt_time = t; local_time = t +ℤ l.gmt_offset; localtime_idx = i }
  add_transitions trans indices (record d { transitions = d.transitions ++ (made ∷ []) })
add_transitions _ _ d = some d

unfoldable pub read_abbreviation : ℤ → Bytes → Data → Option Data
read_abbreviation (negsuc n) bytes d = none
read_abbreviation (pos n) bytes d = elim (read_bytes n bytes) [
  | none ↦ some d
  | some got ↦ some (record d { abbreviation = got.0 })
]

-- Behind the loop over the local times: those that were read stay, also where a read threw.
unfoldable pub finish :
    Counts → List ℤ → List ℕ → List Localtime × Option Bytes → Data → Option Data
finish counts trans indices (read, none) d = some (record d { localtimes = d.localtimes ++ read })
finish counts trans indices (read, some rest) d =
    add_transitions trans indices (record d { localtimes = d.localtimes ++ read })
    >>= read_abbreviation counts.charcnt rest

-- Behind the transitions' times and indices, and behind the counts.
unfoldable pub with_times : Counts → Option (List ℤ × List ℕ × Bytes) → Data → Option Data
with_times counts none d = some d
with_times counts (some (trans, indices, rest)) d =
    finish counts trans indices (read_localtimes (pos_part counts.typecnt) rest) d

unfoldable pub with_counts : Option (Counts × Bytes) → Data → Option Data
with_counts none d = some d
with_counts (some (counts, rest)) d = with_times counts (read_times counts.timecnt rest) d

-- The result is true whatever the file holds, and if there is none.
unfoldable pub read_time_zone_file : Option Bytes → Data → Option (Bool × Data)
read_time_zone_file none d = some (true, d)
read_time_zone_file (some bytes) d = with_counts (read_counts bytes) d >>= λ r. some (true, r)

abbrev pub empty : Data
empty = record { transitions = []; localtimes = []; abbreviation = [] }

-- `TimeZone(zonefile)`: the data, which the constructor drops if the reader returns false.
unfoldable pub open_zone : Option Bytes → Option (Option Data)
open_zone file = do r ← read_time_zone_file file empty; some (if r.0 then some r.1 else none)
