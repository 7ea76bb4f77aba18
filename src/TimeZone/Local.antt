-- ===== src/TimeZone/Local.antt =====
-- TimeZone.cc: local times there and back.
use chat.Prelude.{◌≤◌, ◌≡◌, refl, arith, true, false, some, leb, length, drop, Bool-cases, inl, inr}
use chat.Prelude.Int.{ℤ, pos, ◌+ℤ◌, +ℤ_cancel}
use chat.TimeZone.{Tm, Transition, Localtime, Data, find_localtime, to_local_time, from_local_time}

abbrev pub at_utc : ℤ → Transition
at_utc t = record { gmt_time = t; local_time = pos 0; localtime_idx = 0 }

abbrev pub at_local : ℤ → Transition
at_local t = record { gmt_time = pos 0; local_time = t; localtime_idx = 0 }

abbrev pub localised : Data → Localtime → Tm → Tm
localised d l u = record u {
  is_dst = l.is_dst;
  gmt_offset = l.gmt_offset;
  zone = drop l.arrb_idx d.abbreviation;
}

module _ (gmtime : ℤ → Tm) (timegm : Tm → ℤ) (d : Data) (l : Localtime) (t : ℤ)
    (by_utc : find_localtime d (at_utc t) true ≡ some l)
    (named : l.arrb_idx ≤ length d.abbreviation) where
  abbrev local_tm : Tm
  local_tm = localised d l (gmtime (t +ℤ l.gmt_offset))

  to_local_time_lem : to_local_time gmtime timegm d t ≡ some local_tm
  unfolding to_local_time
  to_local_time_lem =
      let in_name : leb l.arrb_idx (length d.abbreviation) ≡ true = ground arith in
      rw (by_utc, in_name) refl

  -- A time whose local time falls under the same rule, be it summer time or not, comes back from its
  -- local time, where timegm(3) undoes gmtime_r(3) and ignores what the code adds.
  pub from_local_time-to_local_time :
      find_localtime d (at_local (t +ℤ l.gmt_offset)) false ≡ some l
      → timegm local_tm ≡ t +ℤ l.gmt_offset
      → (tm : Tm) × (to_local_time gmtime timegm d t ≡ some tm)
        × (from_local_time gmtime timegm d tm ≡ some t)
  unfolding from_local_time
  from_local_time-to_local_time by_local law =
      let back = +ℤ_cancel t l.gmt_offset in
      (
        local_tm,
        to_local_time_lem,
        elim (Bool-cases l.is_dst) [
          | inl e ↦ rw (law, by_local, back, to_local_time_lem, e, back) refl
          | inr e ↦ rw (law, by_local, e, back) refl
        ],
      )
