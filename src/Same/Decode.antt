-- ===== src/Same/Decode.antt =====
-- seasonalweather/same/decode.py: a header or an end of message out of a stream of bits. What turns
-- the samples into bits is signal processing, and its confidences are left out.
pub mod Parser
pub mod Bits
pub mod Message
pub mod RoundTrip
mod Examples
use seasonal_weather.Prelude.{
  ℕ, zero, suc, ◌+◌, ◌*◌, ◌%◌, ◌^◌, Bool, true, false, not, ◌&&◌, ◌||◌, Option, none, some, List,
  [], ◌∷◌, ◌++◌, leb, ltb, ◌==◌, if◌then◌else◌, length, take, nonempty, Text, codes, text_eq,
  is_digit, starts_with, lstrip,
}
use mathlib.Core.List.{reverse}
use seasonal_weather.Same.{is_code_char, same_preamble_byte, same_preamble_len, same_max_locs}

-- a piece of a pattern: what it matched, and the text behind
abbrev pub Matcher {ℓ} : Type ℓ → Type ℓ
Matcher A = Text → Option (A × Text)

infixl 5 ◌>>=◌ ◌>>◌
unfoldable pub ◌>>=◌ {ℓ κ} : {A : Type ℓ} {B : Type κ} → Matcher A → (A → Matcher B) → Matcher B
◌>>=◌ m f s = elim (m s) [ none ↦ none | some (a, t) ↦ f a t ]

abbrev pub ◌>>◌ {ℓ} : {B : Type ℓ} → Matcher (Unit {0}) → Matcher B → Matcher B
m >> n = m >>= λ _. n

pub matched {ℓ} : {A : Type ℓ} → A → Matcher A
matched a s = some (a, s)

-- a literal piece of `HEADER_RE`
pub expect : Text → Matcher (Unit {0})
expect [] s = some (tt, s)
expect (a ∷ lit) [] = none
expect (a ∷ lit) (c ∷ s) = let rest = expect lit s in if a == c then rest else none

-- `[class]{n}`
pub take_class : (ℕ → Bool) → ℕ → Matcher Text
take_class p zero s = some ([], s)
take_class p (suc n) [] = none
take_class p (suc n) (c ∷ s) =
    let rest = take_class p n s in
    if p c then elim rest [ none ↦ none | some (xs, t) ↦ some (c ∷ xs, t) ] else none

-- what follows a location: another one, or the `+`
pub after_location : Text → Option Bool
after_location [] = none
after_location (c ∷ s) = if c == b'+' then some false else if c == b'-' then some true else none

pub behind : Text → Text
behind [] = []
behind (c ∷ s) = s

-- `[0-9]{6}(?:-[0-9]{6})*\+`, on fuel
pub read_locs : ℕ → Matcher (List Text)
read_locs zero s = none
read_locs (suc fuel) s = elim (take_class is_digit 6 s) [
  | none ↦ none
  | some (loc, t) ↦ elim (after_location t) [
    | none ↦ none
    | some false ↦ some (loc ∷ [], behind t)
    | some true ↦ elim (read_locs fuel (behind t)) [
      | none ↦ none
      | some (locs, u) ↦ some (loc ∷ locs, u)
    ]
  ]
]

-- `[A-Z0-9 /]`
pub is_decoded_sender_char : ℕ → Bool
is_decoded_sender_char c = is_code_char c || c == b' ' || c == b'/'

-- the groups of a match
pub record HeaderMatch : Type 0 where
  pub org : Text
  pub event : Text
  pub locs : List Text
  pub tttt : Text
  pub jjjhhmm : Text
  pub sender : Text

pub match_locs : Matcher (List Text)
match_locs s = read_locs (length s) s

-- the pattern without its `$`
pub match_prefix : Matcher HeaderMatch
match_prefix = do
  expect (codes "ZCZC-")
  org ← take_class is_code_char 3
  expect (codes "-")
  event ← take_class is_code_char 3
  expect (codes "-")
  locs ← match_locs
  tttt ← take_class is_digit 4
  expect (codes "-")
  jjjhhmm ← take_class is_digit 7
  expect (codes "-")
  sender ← take_class is_decoded_sender_char 8
  expect (codes "-")
  matched (record {
    org = org;
    event = event;
    locs = locs;
    tttt = tttt;
    jjjhhmm = jjjhhmm;
    sender = sender;
  })

-- `HEADER_RE.match(s)`, for a text with no newline
pub parse_header : Text → Option HeaderMatch
parse_header s = elim (match_prefix s) [
  | none ↦ none
  | some (m, rest) ↦ if nonempty rest then none else some m
]

-- `s.rstrip()`
pub rstrip : Text → Text
rstrip s = reverse (lstrip (reverse s))

-- `DecodedSAME`, by its `kind`, with the parsed fields of a header
pub data Decoded : Type 0 where
  eom : Decoded
  header : Text → HeaderMatch → Decoded

pub decoded_header : Text → HeaderMatch → Decoded
decoded_header s m =
    header s (record m { locs = take same_max_locs m.locs; sender = rstrip m.sender })

-- eight bits, the least significant first; a bit is `bit & 1`
pub byte_of_bits : ℕ → ℕ → ℕ → ℕ → ℕ → ℕ → ℕ → ℕ → ℕ
byte_of_bits a b c d e f g h =
    a % 2
    + 2 * (b % 2)
    + 4 * (c % 2)
    + 8 * (d % 2)
    + 16 * (e % 2)
    + 32 * (f % 2)
    + 64 * (g % 2)
    + 128 * (h % 2)

-- `read_byte_lsb_first`: none if the samples run out
pub read_byte_lsb_first : List ℕ → Option (ℕ × List ℕ)
read_byte_lsb_first (a ∷ b ∷ c ∷ d ∷ e ∷ f ∷ g ∷ h ∷ rest) =
    some (byte_of_bits a b c d e f g h, rest)
read_byte_lsb_first _ = none

-- `_score_preamble`: how many of the bytes are right, and the bits behind
pub score_preamble : ℕ → List ℕ → ℕ × List ℕ
score_preamble zero bits = (0, bits)
score_preamble (suc n) bits = elim (read_byte_lsb_first bits) [
  | none ↦ (0, bits)
  | some (byte, rest) ↦
      let (good, behind) = score_preamble n rest in
      (if byte == same_preamble_byte then suc good else good, behind)
]

-- `s.endswith("-")`
pub ends_with_dash : Text → Bool
ends_with_dash [] = false
ends_with_dash (c ∷ []) = c == b'-'
ends_with_dash (c ∷ d ∷ s) = ends_with_dash (d ∷ s)

pub is_printable : ℕ → Bool
is_printable c = leb 32 c && leb c 126

-- what the loop does with the text read so far
pub data Verdict : Type 0 where
  accept : Decoded → Verdict
  reject : Verdict
  more : Verdict

-- the test of the first six characters
pub too_strange : Text → Bool
too_strange s = length s == 6 && not (starts_with s (codes "ZCZC-") || starts_with s (codes "NNNN"))

pub judge : Text → Verdict
judge s =
    let slow = if too_strange s then reject else more in
    if text_eq s (codes "NNNN")
    then accept eom
    else if ends_with_dash s && starts_with s (codes "Z")
    then elim (parse_header s) [ none ↦ slow | some m ↦ accept (decoded_header s m) ]
    else slow

-- the loop over the payload, `max_chars` rounds at most
pub read_payload : ℕ → List ℕ → Text → Option Decoded
read_payload zero bits buf = none
read_payload (suc n) bits buf = elim (read_byte_lsb_first bits) [
  | none ↦ none
  | some (byte, rest) ↦
      let ch = byte % 128 in
      elim (ch == 13 || ch == 10) [
        | true ↦ read_payload n rest buf
        | false ↦ elim (is_printable ch) [
          | false ↦ none
          | true ↦ elim (judge (buf ++ ch ∷ [])) [
            | accept found ↦ some found
            | reject ↦ none
            | more ↦ read_payload n rest (buf ++ ch ∷ [])
          ]
        ]
      ]
]

-- `_try_decode_message_at`
pub try_decode_message : ℕ → ℕ → List ℕ → Option Decoded
try_decode_message min_preamble_bytes max_chars bits =
    let (good, rest) = score_preamble same_preamble_len bits in
    if ltb good min_preamble_bytes then none else read_payload max_chars rest []
