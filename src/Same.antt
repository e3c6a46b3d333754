-- ===== src/Same.antt =====
-- seasonalweather/same/same.py: the SAME header, its text and the bits of a burst.
pub mod Duration
pub mod Chunks
pub mod Fields
pub mod Decode
use seasonal_weather.Prelude.{
  ℕ, zero, suc, ◌+◌, ◌-◌, ◌*◌, ◌/◌, ◌%◌, ◌^◌, ◌≤◌, min, max, Bool, true, false, not, ◌&&◌, ◌||◌,
  Option, none, some, List, [], ◌∷◌, ◌++◌, map, leb, ◌==◌, if◌then◌else◌, length, take, drop,
  replicate, keep, nonempty, ℤ, at_least, Text, codes, text_le, text_in, is_digit, is_upper, strip,
  upper, two_digits, sort_by,
}

abbrev pub same_preamble_byte : ℕ
same_preamble_byte = 0xab

abbrev pub same_preamble_len : ℕ
same_preamble_len = 16

abbrev pub same_max_locs : ℕ
same_max_locs = 31

abbrev pub default_org : Text
default_org = codes "WXR"

abbrev pub default_sender : Text
default_sender = codes "SEASNWXR"

pub is_code_char : ℕ → Bool
unfolding is_upper is_digit
is_code_char c = is_upper c || is_digit c

pub normalize_three_char_code : Text → Text → Text
normalize_three_char_code value fallback =
    let s = keep is_code_char (upper (strip value)) in if length s == 3 then s else fallback

-- `s.zfill(width)` of a text of digits
pub zfill : ℕ → Text → Text
zfill width s = replicate (width - length s) b'0' ++ s

pub normalize_same_location : Text → Option Text
normalize_same_location value =
    let digits = keep is_digit (strip value) in
    if nonempty digits then some (take 6 (zfill 6 digits)) else none

pub is_sender_char : ℕ → Bool
is_sender_char c = leb 0x20 c && leb c 0x7e && not (c == b'-' || c == b'+')

pub clamp_sender : Text → Text
clamp_sender sender =
    let s = upper (strip sender) in
    let t = keep is_sender_char (if nonempty s then s else default_sender) in
    if leb 8 (length t) then take 8 t else take 8 (t ++ replicate 8 b' ')

pub round_up_to_15_minutes : ℤ → ℕ
round_up_to_15_minutes minutes =
    let m = at_least 0 minutes in if m % 15 == 0 then m else m + (15 - m % 15)

pub format_tttt : ℤ → Text
format_tttt duration_minutes =
    let m = round_up_to_15_minutes duration_minutes in
    let h = max 0 (min 99 (m / 60)) in
    let mm = max 0 (min 59 (m % 60)) in two_digits h ++ two_digits mm

-- `set(xs)`: each text once
pub distinct : List Text → List Text
distinct [] = []
distinct (x ∷ xs) = let rest = distinct xs in if text_in x rest then rest else x ∷ rest

-- the loop that fills `cleaned`
pub clean_locations : List Text → List Text
clean_locations [] = []
clean_locations (x ∷ xs) = elim (normalize_same_location (strip x)) [
  | none ↦ clean_locations xs
  | some loc ↦ loc ∷ clean_locations xs
]

-- `[cleaned[i : i + max_per] for i in range(0, len(cleaned), max_per)]`, for a positive `max_per`
pub slices : ℕ → ℕ → List Text → List (List Text)
slices zero max_per xs = []
slices (suc fuel) max_per [] = []
slices (suc fuel) max_per (x ∷ xs) =
    take max_per (x ∷ xs) ∷ slices fuel max_per (drop max_per (x ∷ xs))

pub sorted_locations : List Text → List Text
sorted_locations locs = sort_by text_le (distinct (clean_locations locs))

pub chunk_locations : List Text → ℕ → List (List Text)
chunk_locations locs max_per =
    let cleaned = sorted_locations locs in
    if nonempty cleaned then slices (length cleaned) max_per cleaned else [] ∷ []

-- an aware `datetime`, in UTC
pub record UtcTime : Type 0 where
  pub year : ℕ
  pub month : ℕ
  pub day : ℕ
  pub hour : ℕ
  pub minute : ℕ

pub is_leap : ℕ → Bool
is_leap y = y % 4 == 0 && (not (y % 100 == 0) || y % 400 == 0)

-- the days of the year before a month
pub days_before_month : ℕ → ℕ → ℕ
days_before_month y m =
    let leap = if is_leap y then 1 else 0 in
    if leb m 1
    then 0
    else if m == 2
    then 31
    else if m == 3
    then 59 + leap
    else if m == 4
    then 90 + leap
    else if m == 5
    then 120 + leap
    else if m == 6
    then 151 + leap
    else if m == 7
    then 181 + leap
    else if m == 8
    then 212 + leap
    else if m == 9
    then 243 + leap
    else if m == 10
    then 273 + leap
    else if m == 11
    then 304 + leap
    else 334 + leap

-- `timetuple().tm_yday`
pub julian_day : UtcTime → ℕ
julian_day t = days_before_month t.year t.month + t.day

pub record SameHeader : Type 0 where
  pub org : Text
  pub event : Text
  pub locations : List Text
  pub duration_minutes : ℤ
  pub sender : Text
  pub issued_utc : UtcTime

-- `"-".join(locs)`
pub join_dash : List Text → Text
join_dash [] = []
join_dash (l ∷ []) = l
join_dash (l ∷ m ∷ rest) = l ++ b'-' ∷ join_dash (m ∷ rest)

-- `[loc for loc in (normalize(x) for x in locs) if loc is not None]`
pub known_locations : List Text → List Text
known_locations [] = []
known_locations (x ∷ xs) = elim (normalize_same_location x) [
  | none ↦ known_locations xs
  | some loc ↦ loc ∷ known_locations xs
]

-- the locations of the header: those that normalize, or the national one
pub header_locations : List Text → List Text
header_locations locs =
    let known = known_locations locs in if nonempty known then known else codes "000000" ∷ []

-- `f"{n:03d}"` for a number below 1000
pub three_digits : ℕ → Text
three_digits n = (b'0' + n / 100) ∷ (b'0' + n / 10 % 10) ∷ (b'0' + n % 10) ∷ []

-- `f"{jjj:03d}{hhmm}"`
pub issue_stamp : UtcTime → Text
issue_stamp t = three_digits (julian_day t) ++ two_digits t.hour ++ two_digits t.minute

-- `f"ZCZC-{org}-{event}-{loc_part}+{tttt}-{jjj:03d}{hhmm}-{llllllll}-"`
pub header_text : Text → Text → Text → Text → Text → Text → Text
header_text org event loc_part tttt stamp sender =
    codes "ZCZC-"
    ++ (org
        ++ (codes "-"
            ++ (event
                ++ (codes "-"
                    ++ (loc_part
                        ++ b'+'
                          ∷ (tttt
                              ++ (codes "-"
                                  ++ (stamp ++ (codes "-" ++ (sender ++ codes "-"))))))))))

-- `SameHeader.as_ascii`
pub as_ascii : SameHeader → Text
as_ascii h =
    header_text (normalize_three_char_code h.org default_org)
      (normalize_three_char_code h.event (codes "CEM")) (join_dash (header_locations h.locations))
      (format_tttt h.duration_minutes) (issue_stamp h.issued_utc) (clamp_sender h.sender)

-- `(byte >> i) & 1`
pub bit_at : ℕ → ℕ → ℕ
bit_at byte i = byte / 2 ^ i % 2

pub byte_bits : ℕ → List ℕ
byte_bits byte =
    bit_at byte 0
    ∷ bit_at byte 1
    ∷ bit_at byte 2
    ∷ bit_at byte 3
    ∷ bit_at byte 4
    ∷ bit_at byte 5
    ∷ bit_at byte 6
    ∷ bit_at byte 7
    ∷ []

pub iter_afsk_bits_for_bytes : List ℕ → List ℕ
iter_afsk_bits_for_bytes [] = []
iter_afsk_bits_for_bytes (byte ∷ payload) = byte_bits byte ++ iter_afsk_bits_for_bytes payload

-- `ord(ch) & 0x7F` of each character
pub payload_bytes : Text → List ℕ
payload_bytes msg = map (λ ch. ch % 128) msg

-- the bits of one burst of `_render_same_bursts_wav_python`; none is its ValueError
pub burst_bits : Text → Option (List ℕ)
burst_bits message_ascii =
    let msg = strip message_ascii in
    if nonempty msg
    then some (
        iter_afsk_bits_for_bytes
          (replicate same_preamble_len same_preamble_byte ++ payload_bytes msg))
    else none
