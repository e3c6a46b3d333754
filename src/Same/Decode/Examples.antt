-- ===== src/Same/Decode/Examples.antt =====
-- A tornado warning for two counties, and the theorems at it.
use seasonal_weather.Prelude.{
  ℕ, ◌≤◌, ◌<◌, ◌+◌, ◌%◌, ◌≡◌, refl, some, List, [], ◌∷◌, ◌++◌, arith, All, pos, at_least, Text,
  codes, is_digit, strip, upper, two_digits, text_in, text_le, sort_by,
}
use seasonal_weather.Same.{
  SameHeader, as_ascii, header_text, burst_bits, clamp_sender, is_sender_char, is_code_char,
  normalize_three_char_code, header_locations, known_locations, normalize_same_location, zfill,
  join_dash, format_tttt, round_up_to_15_minutes, issue_stamp, julian_day, days_before_month,
  is_leap, three_digits, chunk_locations, sorted_locations, clean_locations, distinct, slices,
}
use seasonal_weather.Same.Duration.{minutes_of, format_tttt_covers}
use seasonal_weather.Same.Chunks.{in_turn, Fits, chunk_locations_partition}
use seasonal_weather.Same.Decode.{decoded_header, try_decode_message, is_decoded_sender_char}
use seasonal_weather.Same.Decode.RoundTrip.{sent_fields, decode-burst_bits}

abbrev tornado : SameHeader
tornado = record {
  org = codes "wxr";
  event = codes "TOR";
  locations = codes "24031" ∷ codes "x" ∷ codes "051059" ∷ [];
  duration_minutes = pos 40;
  sender = codes "klwx/nws";
  issued_utc = record { year = 2024; month = 3; day = 1; hour = 18; minute = 5 };
}

tornado_text : as_ascii tornado ≡ codes "ZCZC-WXR-TOR-024031-051059+0045-0611805-KLWX/NWS-"
unfolding as_ascii header_text normalize_three_char_code is_code_char header_locations
    known_locations normalize_same_location zfill join_dash format_tttt round_up_to_15_minutes
    issue_stamp julian_day days_before_month is_leap three_digits two_digits clamp_sender
    is_sender_char strip upper is_digit
tornado_text = refl

decode-burst_bits_example :
    (bits : List ℕ) × (burst_bits (as_ascii tornado) ≡ some bits)
    × (try_decode_message 14 320 (bits ++ 1 ∷ 0 ∷ [])
        ≡ some (decoded_header (as_ascii tornado) (sent_fields tornado)))
unfolding as_ascii header_text normalize_three_char_code is_code_char header_locations
    known_locations normalize_same_location zfill join_dash format_tttt round_up_to_15_minutes
    issue_stamp julian_day days_before_month is_leap three_digits two_digits clamp_sender
    is_sender_char strip upper is_digit is_decoded_sender_char
decode-burst_bits_example =
    decode-burst_bits tornado 14 320 (1 ∷ 0 ∷ [])
      (record { month = omega arith; day = omega arith; hour = omega arith; minute = omega arith })
      (refl, (refl, (refl, (refl, (refl, (refl, (refl, (refl, tt)))))))) (omega arith) (omega arith)

format_tttt_covers_example :
    (at_least 0 (pos 40) ≤ minutes_of (format_tttt (pos 40)))
    × (minutes_of (format_tttt (pos 40)) < at_least 0 (pos 40) + 15)
    × (minutes_of (format_tttt (pos 40)) % 15 ≡ 0)
format_tttt_covers_example = format_tttt_covers (pos 40) (omega arith)

abbrev three_places : List Text
three_places = codes "51059" ∷ codes "024031" ∷ codes "051059" ∷ codes "24033" ∷ []

chunk_locations_partition_example :
    (in_turn (chunk_locations three_places 2) ≡ sorted_locations three_places)
    × All (Fits 2) (chunk_locations three_places 2)
unfolding sorted_locations sort_by distinct clean_locations normalize_same_location strip is_digit
    text_in zfill text_le
chunk_locations_partition_example = chunk_locations_partition three_places 1 refl

chunks_of_three_places :
    chunk_locations three_places 2
    ≡ (codes "024031" ∷ codes "024033" ∷ []) ∷ (codes "051059" ∷ []) ∷ []
unfolding chunk_locations sorted_locations clean_locations distinct slices sort_by text_in text_le
    normalize_same_location zfill strip is_digit
chunks_of_three_places = refl
