-- ===== src/Same/Decode/RoundTrip.antt =====
-- A burst of an encoded header is decoded to the header's fields.
use seasonal_weather.Prelude.{
  ℕ, ◌≤◌, ◌≡◌, refl, sym, ◌∙◌, ap, true, false, Option, some, List, [], ◌∷◌, ◌++◌, arith, All,
  replicate, length, Text, codes, is_space, strip, lstrip, nonempty, is_upper,
}
use mathlib.Core.List.{append_assoc, reverse, reverse-append, reverse-reverse}
use seasonal_weather.Same.{
  is_code_char, iter_afsk_bits_for_bytes, payload_bytes, header_text, SameHeader,
  normalize_three_char_code, default_org, header_locations, format_tttt, issue_stamp, clamp_sender,
  as_ascii, burst_bits, same_preamble_byte, same_preamble_len,
}
use seasonal_weather.Same.Fields.{
  Class, normalize_three_char_code-Class, header_locations-SixDigits, format_tttt-Class, IsTime,
  issue_stamp-Class, length-clamp_sender,
}
use seasonal_weather.Same.Decode.{
  HeaderMatch, Decoded, decoded_header, is_decoded_sender_char, ends_with_dash, is_printable,
  try_decode_message, read_payload, score_preamble,
}
use seasonal_weather.Same.Decode.Parser.{WellFormed, text_of}
use seasonal_weather.Same.Decode.Bits.{score_preamble-replicate, iter_afsk_bits-append}
use seasonal_weather.Same.Decode.Message.{
  Printable, Printable-text_of, ends_with_dash-text_of, read_payload-text_of,
}

-- what the fields of a header are on the air
abbrev pub sent_fields : SameHeader → HeaderMatch
sent_fields h = record {
  org = normalize_three_char_code h.org default_org;
  event = normalize_three_char_code h.event (codes "CEM");
  locs = header_locations h.locations;
  tttt = format_tttt h.duration_minutes;
  jjjhhmm = issue_stamp h.issued_utc;
  sender = clamp_sender h.sender;
}

-- the sender has only characters that the decoder's pattern knows
abbrev pub PlainSender : SameHeader → Type 0
PlainSender h = All (λ c. is_decoded_sender_char c ≡ true) (clamp_sender h.sender)

wxr : Class is_code_char 3 default_org
unfolding is_code_char is_upper
wxr = (refl, (refl, (refl, (refl, tt))))

cem : Class is_code_char 3 (codes "CEM")
unfolding is_code_char is_upper
cem = (refl, (refl, (refl, (refl, tt))))

sent_fields-WellFormed :
    (h : SameHeader) → IsTime h.issued_utc → PlainSender h → WellFormed (sent_fields h)
sent_fields-WellFormed h t plain = record {
  org = normalize_three_char_code-Class h.org default_org wxr;
  event = normalize_three_char_code-Class h.event (codes "CEM") cem;
  some_loc = (header_locations-SixDigits h.locations).0;
  locs = (header_locations-SixDigits h.locations).1;
  tttt = format_tttt-Class h.duration_minutes;
  jjjhhmm = issue_stamp-Class h.issued_utc t;
  sender = (length-clamp_sender h.sender, plain);
}

ends_with_dash-init : (s : Text) → ends_with_dash s ≡ true → (xs : Text) × (s ≡ xs ++ b'-' ∷ [])
unfolding ends_with_dash
ends_with_dash-init [] h = cc
ends_with_dash-init (c ∷ []) h = ([], ground arith)
ends_with_dash-init (c ∷ d ∷ s) h =
    let (xs, e) = ends_with_dash-init (d ∷ s) h in (c ∷ xs, ap (λ r. c ∷ r) e)

strip_dash :
    (c : ℕ) (s : Text) → is_space c ≡ false → ends_with_dash (c ∷ s) ≡ true → strip (c ∷ s) ≡ c ∷ s
unfolding strip lstrip
strip_dash c s letter h =
    let (xs, e) = ends_with_dash-init (c ∷ s) h in
    let back : reverse (c ∷ s) ≡ b'-' ∷ reverse xs = ap reverse e ∙ reverse-append xs (b'-' ∷ []) in
    rw letter (rw back (unfold is_space in sym (ap reverse back) ∙ reverse-reverse (c ∷ s)))

payload_bytes_ascii : (s : Text) → Printable s → payload_bytes s ≡ s
unfolding payload_bytes is_printable
payload_bytes_ascii [] h = refl
payload_bytes_ascii (c ∷ s) (hc, h) = ground (arith, payload_bytes_ascii s h)

score_preamble-lead :
    (n : ℕ) (payload noise : List ℕ)
    → score_preamble n
        (iter_afsk_bits_for_bytes (replicate n same_preamble_byte ++ payload) ++ noise)
      ≡ (n, iter_afsk_bits_for_bytes payload ++ noise)
score_preamble-lead n payload noise =
    let lead = replicate n same_preamble_byte in
    rw
      (
        iter_afsk_bits-append lead payload,
        append_assoc (iter_afsk_bits_for_bytes lead) (iter_afsk_bits_for_bytes payload) noise,
      )
      (score_preamble-replicate n (iter_afsk_bits_for_bytes payload ++ noise))

burst_bits-eq :
    (msg : Text)
    → strip msg ≡ msg
    → payload_bytes msg ≡ msg
    → nonempty msg ≡ true
    → burst_bits msg
      ≡ some (iter_afsk_bits_for_bytes (replicate same_preamble_len same_preamble_byte ++ msg))
unfolding burst_bits
burst_bits-eq msg trimmed ascii full = rw (trimmed, full, ascii)

try_decode-lead :
    (min_preamble max_chars : ℕ) (payload noise : List ℕ) (found : Option Decoded)
    → min_preamble ≤ same_preamble_len
    → read_payload max_chars (iter_afsk_bits_for_bytes payload ++ noise) [] ≡ found
    → try_decode_message min_preamble max_chars (
        iter_afsk_bits_for_bytes (replicate same_preamble_len same_preamble_byte ++ payload)
        ++ noise)
      ≡ found
unfolding try_decode_message
try_decode-lead min_preamble max_chars payload noise found low e =
    ground (arith, score_preamble-lead same_preamble_len payload noise)

strip-text_of : (m : HeaderMatch) → strip (text_of m) ≡ text_of m
unfolding header_text
strip-text_of m = strip_dash b'Z' _ (unfold is_space in refl) (ends_with_dash-text_of m)

nonempty-text_of : (m : HeaderMatch) → nonempty (text_of m) ≡ true
unfolding header_text
nonempty-text_of m = refl

-- For a header with a time in range and a clamped sender of capitals, digits, slashes and spaces, the bits of a
-- burst, with any bits behind them, decode to the header's text and fields, where the preamble asked
-- for is no longer than the one sent and the text fits the decoder's limit.
pub decode-burst_bits :
    (h : SameHeader) (min_preamble max_chars : ℕ) (noise : List ℕ)
    → IsTime h.issued_utc
    → PlainSender h
    → min_preamble ≤ same_preamble_len
    → length (as_ascii h) ≤ max_chars
    → (bits : List ℕ) × (burst_bits (as_ascii h) ≡ some bits)
      × (try_decode_message min_preamble max_chars (bits ++ noise)
          ≡ some (decoded_header (as_ascii h) (sent_fields h)))
unfolding as_ascii
decode-burst_bits h min_preamble max_chars noise time plain low fits =
    let m = sent_fields h in
    let w = sent_fields-WellFormed h time plain in
    let msg = text_of m in
    (
      iter_afsk_bits_for_bytes (replicate same_preamble_len same_preamble_byte ++ msg),
      burst_bits-eq msg (strip-text_of m) (payload_bytes_ascii msg (Printable-text_of m w))
          (nonempty-text_of m),
      try_decode-lead min_preamble max_chars msg noise (some (decoded_header msg m)) low
          (read_payload-text_of m max_chars noise w fits),
    )
