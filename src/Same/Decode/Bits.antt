-- ===== src/Same/Decode/Bits.antt =====
-- Bytes survive their way through the bits, and a clean preamble is seen whole.
use seasonal_weather.Prelude.{
  ℕ, zero, suc, ◌<◌, ◌≡◌, refl, sym, ap, some, List, [], ◌∷◌, ◌++◌, arith, replicate,
}
use mathlib.Core.List.{append_assoc}
use seasonal_weather.Same.{bit_at, byte_bits, iter_afsk_bits_for_bytes, same_preamble_byte}
use seasonal_weather.Same.Decode.{byte_of_bits, read_byte_lsb_first, score_preamble}

byte_of_bits-bit_at :
    (b : ℕ)
    → b < 256
    → byte_of_bits
        (bit_at b 0)
        (bit_at b 1)
        (bit_at b 2)
        (bit_at b 3)
        (bit_at b 4)
        (bit_at b 5)
        (bit_at b 6)
        (bit_at b 7)
      ≡ b
unfolding byte_of_bits bit_at
byte_of_bits-bit_at b h = omega arith

-- The eight bits of a byte, the least significant first, read back as the byte.
pub read_byte-byte_bits :
    (b : ℕ) (rest : List ℕ) → b < 256 → read_byte_lsb_first (byte_bits b ++ rest) ≡ some (b, rest)
unfolding read_byte_lsb_first byte_bits
read_byte-byte_bits b rest h = ap (λ n. some (n, rest)) (byte_of_bits-bit_at b h)

pub score_preamble-replicate :
    (n : ℕ) (rest : List ℕ)
    → score_preamble n (iter_afsk_bits_for_bytes (replicate n same_preamble_byte) ++ rest)
      ≡ (n, rest)
unfolding score_preamble iter_afsk_bits_for_bytes
score_preamble-replicate zero rest = refl
score_preamble-replicate (suc n) rest =
    let later = iter_afsk_bits_for_bytes (replicate n same_preamble_byte) in
    rw (append_assoc (byte_bits same_preamble_byte) later rest) (
      rw (read_byte-byte_bits same_preamble_byte (later ++ rest) (omega arith), score_preamble)
        (rw (score_preamble-replicate n rest)))

pub iter_afsk_bits-append :
    (xs ys : List ℕ)
    → iter_afsk_bits_for_bytes (xs ++ ys)
      ≡ iter_afsk_bits_for_bytes xs ++ iter_afsk_bits_for_bytes ys
unfolding iter_afsk_bits_for_bytes
iter_afsk_bits-append [] ys = refl
iter_afsk_bits-append (x ∷ xs) ys =
    rw (iter_afsk_bits-append xs ys) (sym (append_assoc (byte_bits x) _ _))
