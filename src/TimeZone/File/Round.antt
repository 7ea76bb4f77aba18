-- ===== src/TimeZone/File/Round.antt =====
-- TimeZone.cc: a zone file as it is written, and that the reader gets back what is in it.
use chat.Prelude.{
  ◌>>=◌, ℕ, zero, suc, ◌^◌, ◌<◌, ◌≡◌, refl, subst, sym, ap, ◌∙◌, true, not, none, some, List, [],
  ◌∷◌, ◌++◌, ◌==◌, length, get_elem?, take-length_append, drop-length_append, length-append,
  append_assoc, append-nil, leb, arith, network_bytes32, network_value32-bytes, signed32, map,
}
use chat.Prelude.Int.{pos, ◌+ℤ◌}
use chat.TimeZone.{Transition, Localtime, Data}
use chat.TimeZone.File.{
  Bytes, Counts, empty, read_bytes, read_int32, read_uint8, read_counts, read_trans, read_indices,
  read_times, read_localtime, read_localtimes, add_transitions, read_abbreviation, finish,
  with_times, with_counts, read_time_zone_file,
}

-- A local time as it stands in a file: the offset's word, the summer-time byte and the index of the name.
pub record Kind : Type 0 where
  pub offset : ℕ
  pub dst : ℕ
  pub name : ℕ

pub record ZoneFile : Type 0 where
  pub preface : Bytes  -- the version and what is reserved
  pub isgmtcnt : ℕ
  pub isstdcnt : ℕ
  pub leapcnt : ℕ
  pub times : List ℕ
  pub indices : List ℕ
  pub kinds : List Kind
  pub names : Bytes
  pub more : Bytes  -- what follows is not read

-- Words one after the other, and the local times.
abbrev pub words : List ℕ → Bytes
words [] = []
words (w ∷ ws) = network_bytes32 w ++ words ws

abbrev pub kind_bytes : List Kind → Bytes
kind_bytes [] = []
kind_bytes (k ∷ ks) = network_bytes32 k.offset ++ (k.dst ∷ (k.name ∷ kind_bytes ks))

abbrev pub body : ZoneFile → Bytes
body z = words z.times ++ (z.indices ++ (kind_bytes z.kinds ++ (z.names ++ z.more)))

abbrev pub written : ZoneFile → Bytes
written z =
    84
    ∷ (90
        ∷ (105
            ∷ (102
                ∷ (z.preface
                    ++ (network_bytes32 z.isgmtcnt
                        ++ (network_bytes32 z.isstdcnt
                            ++ (network_bytes32 z.leapcnt
                                ++ (network_bytes32 (length z.times)
                                    ++ (network_bytes32 (length z.kinds)
                                        ++ (network_bytes32 (length z.names) ++ body z))))))))))

abbrev pub local_of : Kind → Localtime
local_of k = record { gmt_offset = signed32 k.offset; is_dst = not (k.dst == 0); arrb_idx = k.name }

-- The transitions of a file; an index out of range has none.
abbrev pub transitions_of : List Localtime → List ℕ → List ℕ → List Transition
transitions_of ls (t ∷ ts) (i ∷ is) = elim (get_elem? ls i) [
  | none ↦ []
  | some l ↦
      record { gmt_time = signed32 t; local_time = signed32 t +ℤ l.gmt_offset; localtime_idx = i }
      ∷ transitions_of ls ts is
]
transitions_of ls _ _ = []

abbrev pub data_of : ZoneFile → Data
data_of z = record {
  transitions = transitions_of (map local_of z.kinds) z.times z.indices;
  localtimes = map local_of z.kinds;
  abbreviation = z.names;
}

abbrev pub Small : List ℕ → Type 0
Small [] = Unit
Small (w ∷ ws) = (w < 2 ^ 32) × Small ws

abbrev pub SmallKinds : List Kind → Type 0
SmallKinds [] = Unit
SmallKinds (k ∷ ks) = (k.offset < 2 ^ 32) × SmallKinds ks

abbrev pub Within : ℕ → List ℕ → Type 0
Within n [] = Unit
Within n (i ∷ is) = (i < n) × Within n is

pub record IsZoneFile (z : ZoneFile) : Type 0 where
  pub preface_size : length z.preface ≡ 16
  pub words_small : (z.isgmtcnt < 2 ^ 32) × (z.isstdcnt < 2 ^ 32) × (z.leapcnt < 2 ^ 32)
  pub counts_small :
      (length z.times < 2 ^ 31) × (length z.kinds < 2 ^ 31) × (length z.names < 2 ^ 31)
  pub times_small : Small z.times
  pub kinds_small : SmallKinds z.kinds
  pub one_index : length z.indices ≡ length z.times
  pub indices_within : Within (length z.kinds) z.indices

read_bytes-append : (xs r : Bytes) → read_bytes (length xs) (xs ++ r) ≡ some (xs, r)
unfolding read_bytes
read_bytes-append xs r =
    let fits : leb (length xs) (length (xs ++ r)) ≡ true = ground (arith, length-append xs r) in
    rw (fits, take-length_append xs r, drop-length_append xs r) refl

read_int32-append :
    (w : ℕ) (r : Bytes) → w < 2 ^ 32 → read_int32 (network_bytes32 w ++ r) ≡ some (signed32 w, r)
unfolding read_int32
read_int32-append w r h =
    rw (read_bytes-append (network_bytes32 w) r)
      (ap (λ v. some (signed32 v, r)) (network_value32-bytes w [] h))

-- The code reads a count through a signed integer.
count_kept : (n : ℕ) → n < 2 ^ 31 → signed32 n ≡ pos n
count_kept n h = ground arith

read_trans-words :
    (ws : List ℕ) (r : Bytes)
    → Small ws
    → read_trans (length ws) (words ws ++ r) ≡ some (map signed32 ws, r)
unfolding read_trans
read_trans-words [] r h = refl
read_trans-words (w ∷ ws) r h =
    rw
      (
        append_assoc (network_bytes32 w) (words ws) r,
        read_int32-append w (words ws ++ r) h.0,
        read_trans-words ws r h.1,
      )
      refl

read_indices-append : (is : List ℕ) (r : Bytes) → read_indices (length is) (is ++ r) ≡ some (is, r)
unfolding read_indices read_uint8
read_indices-append [] r = refl
read_indices-append (i ∷ is) r = rw (read_indices-append is r) refl

read_times-written :
    (ts is : List ℕ) (r : Bytes)
    → Small ts
    → length is ≡ length ts
    → read_times (pos (length ts)) (words ts ++ (is ++ r)) ≡ some (map signed32 ts, is, r)
unfolding read_times
read_times-written ts is r h e =
    rw (read_trans-words ts (is ++ r) h, sym e, read_indices-append is r) refl

read_localtime-kind :
    (k : Kind) (r : Bytes)
    → k.offset < 2 ^ 32
    → read_localtime (network_bytes32 k.offset ++ (k.dst ∷ (k.name ∷ r))) ≡ some (local_of k, r)
unfolding read_localtime read_uint8
read_localtime-kind k r h = rw (read_int32-append k.offset (k.dst ∷ (k.name ∷ r)) h) refl

read_localtimes-first :
    (n : ℕ) (l : Localtime) (bytes rest : Bytes)
    → read_localtime bytes ≡ some (l, rest)
    → read_localtimes (suc n) bytes ≡ (l ∷ (read_localtimes n rest).0, (read_localtimes n rest).1)
unfolding read_localtimes
read_localtimes-first n l bytes rest e = rw (read_localtimes, e) refl

read_localtimes-kinds :
    (ks : List Kind) (r : Bytes)
    → SmallKinds ks
    → read_localtimes (length ks) (kind_bytes ks ++ r) ≡ (map local_of ks, some r)
unfolding read_localtimes
read_localtimes-kinds [] r h = refl
read_localtimes-kinds (k ∷ ks) r h =
    ap (read_localtimes (suc (length ks)))
      (append_assoc (network_bytes32 k.offset) (k.dst ∷ (k.name ∷ kind_bytes ks)) r)
    ∙ read_localtimes-first (length ks) (local_of k) _ (kind_bytes ks ++ r)
        (read_localtime-kind k (kind_bytes ks ++ r) h.0)
    ∙ ap (λ p. (local_of k ∷ p.0, p.1)) (read_localtimes-kinds ks r h.1)

get_elem?-Within :
    (i : ℕ) (ls : List Localtime) → i < length ls → (l : Localtime) × (get_elem? ls i ≡ some l)
get_elem?-Within i [] h = absurd (omega arith)
get_elem?-Within zero (l ∷ ls) h = (l, refl)
get_elem?-Within (suc i) (l ∷ ls) h = get_elem?-Within i ls (omega arith)

add_transitions-lem :
    (ts is : List ℕ) (d : Data)
    → Within (length d.localtimes) is
    → add_transitions (map signed32 ts) is d
      ≡ some (record d { transitions = d.transitions ++ transitions_of d.localtimes ts is })
unfolding add_transitions
add_transitions-lem [] is d h =
    ap (λ ts. some (record d { transitions = ts })) (sym (append-nil d.transitions))
add_transitions-lem (t ∷ ts) [] d h =
    ap (λ ts. some (record d { transitions = ts })) (sym (append-nil d.transitions))
add_transitions-lem (t ∷ ts) (i ∷ is) d h =
    let (l, found) = get_elem?-Within i d.localtimes h.0 in
    let made : Transition = record {
      gmt_time = signed32 t;
      local_time = signed32 t +ℤ l.gmt_offset;
      localtime_idx = i;
    } in
    let next : Data = record d { transitions = d.transitions ++ (made ∷ []) } in
    let seen : transitions_of d.localtimes (t ∷ ts) (i ∷ is)
        ≡ made ∷ transitions_of d.localtimes ts is =
      rw (transitions_of, found) refl in
    rw (add_transitions, found)
      (add_transitions-lem ts is next h.1
        ∙ ap (λ ts. some (record d { transitions = ts }))
            (append_assoc d.transitions (made ∷ []) (transitions_of d.localtimes ts is)
              ∙ ap (λ ts. d.transitions ++ ts) (sym seen)))

read_abbreviation-names :
    (ns r : Bytes) (d : Data)
    → read_abbreviation (pos (length ns)) (ns ++ r) d ≡ some (record d { abbreviation = ns })
unfolding read_abbreviation
read_abbreviation-names ns r d = rw (read_abbreviation, read_bytes-append ns r) refl

-- The counts of a file, behind its first twenty bytes.
abbrev counts_of : ZoneFile → Counts
counts_of z = record {
  isgmtcnt = signed32 z.isgmtcnt;
  isstdcnt = signed32 z.isstdcnt;
  leapcnt = signed32 z.leapcnt;
  timecnt = pos (length z.times);
  typecnt = pos (length z.kinds);
  charcnt = pos (length z.names);
}

length-map : (ks : List Kind) → length (map local_of ks) ≡ length ks
length-map [] = refl
length-map (k ∷ ks) = ap suc (length-map ks)

finish-written :
    (z : ZoneFile)
    → IsZoneFile z
    → finish
        (counts_of z)
        (map signed32 z.times)
        z.indices
        (map local_of z.kinds, some (z.names ++ z.more))
        empty
      ≡ some (data_of z)
unfolding finish
finish-written z v =
    let within : Within (length (map local_of z.kinds)) z.indices =
      subst (λ n. Within n z.indices) (sym (length-map z.kinds)) v.indices_within in
    rw
      (
        add_transitions-lem z.times z.indices
            (record { transitions = []; localtimes = map local_of z.kinds; abbreviation = [] })
            within,
        read_abbreviation-names z.names z.more (record {
          transitions = transitions_of (map local_of z.kinds) z.times z.indices;
          localtimes = map local_of z.kinds;
          abbreviation = [];
        }),
      )
      refl

read_preface :
    (xs r : Bytes)
    → length xs ≡ 16
    → (version : Bytes) × (reserved : Bytes) × (read_bytes 1 (xs ++ r)
        ≡ some (version, reserved ++ r))
      × (read_bytes 15 (reserved ++ r) ≡ some (reserved, r))
read_preface [] r h = absurd (omega (arith, h))
read_preface (x ∷ xs) r h =
    let size : length xs ≡ 15 = omega (arith, h) in
    (
      x ∷ [],
      xs,
      read_bytes-append (x ∷ []) (xs ++ r),
      ap (λ n. read_bytes n (xs ++ r)) (sym size) ∙ read_bytes-append xs r,
    )

below_word : (n : ℕ) → n < 2 ^ 31 → n < 2 ^ 32
below_word n h = omega arith

count_read :
    (n : ℕ) (r : Bytes) → n < 2 ^ 31 → read_int32 (network_bytes32 n ++ r) ≡ some (pos n, r)
count_read n r h = read_int32-append n r (below_word n h) ∙ ap (λ k. some (k, r)) (count_kept n h)

read_head :
    (r : Bytes)
    → read_bytes 4 (84 ∷ (90 ∷ (105 ∷ (102 ∷ r)))) ≡ some (84 ∷ (90 ∷ (105 ∷ (102 ∷ []))), r)
read_head r = read_bytes-append (84 ∷ (90 ∷ (105 ∷ (102 ∷ [])))) r

read_counts-written :
    (z : ZoneFile) → IsZoneFile z → read_counts (written z) ≡ some (counts_of z, body z)
unfolding read_counts
read_counts-written z v =
    let (gmt, std, leap) = v.words_small in
    let (times, kinds, names) = v.counts_small in
    let c6 = network_bytes32 (length z.names) ++ body z in
    let c5 = network_bytes32 (length z.kinds) ++ c6 in
    let c4 = network_bytes32 (length z.times) ++ c5 in
    let c3 = network_bytes32 z.leapcnt ++ c4 in
    let c2 = network_bytes32 z.isstdcnt ++ c3 in
    let c1 = network_bytes32 z.isgmtcnt ++ c2 in
    let (version, reserved, first, second) = read_preface z.preface c1 v.preface_size in
    rw
      (
        read_counts,
        read_head (z.preface ++ c1),
        first,
        second,
        read_int32-append z.isgmtcnt c2 gmt,
        read_int32-append z.isstdcnt c3 std,
        read_int32-append z.leapcnt c4 leap,
        count_read (length z.times) c5 times,
        count_read (length z.kinds) c6 kinds,
        count_read (length z.names) (body z) names,
      )
      refl

-- From a zone file that is written with its six counts, each index inside the local times, the reader
-- gets back every local time, every transition with its time in both clocks, and the names; it never
-- indexes out of range, and what follows in the file is not looked at.
pub read_time_zone_file-written :
    (z : ZoneFile)
    → IsZoneFile z
    → read_time_zone_file (some (written z)) empty ≡ some (true, data_of z)
unfolding read_time_zone_file with_counts with_times
read_time_zone_file-written z v =
    let rest = z.names ++ z.more in
    ap (λ o. with_counts o empty >>= λ r. some (true, r)) (read_counts-written z v)
    ∙ ap (λ o. with_times (counts_of z) o empty >>= λ r. some (true, r))
        (read_times-written z.times z.indices (kind_bytes z.kinds ++ rest) v.times_small
          v.one_index)
    ∙ ap
        (λ g. finish (counts_of z) (map signed32 z.times) z.indices g empty >>= λ r. some (true, r))
        (read_localtimes-kinds z.kinds rest v.kinds_small)
    ∙ ap (λ o. o >>= λ r. some (true, r)) (finish-written z v)
