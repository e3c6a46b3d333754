-- ===== src/Same/Decode/Message.antt =====
-- The loop over the payload: it stops at the end of the header and nowhere before.
use seasonal_weather.Prelude.{
  ℕ, zero, suc, ◌%◌, ◌≤◌, ◌<◌, ◌≡◌, ◌≢◌, refl, ◌∙◌, ap, Bool, true, false, ◌||◌, some, List, [],
  ◌∷◌, ◌++◌, ◌==◌, arith, All, All-append, length, Text, codes, text_eq, is_digit, starts_with,
  is_upper, Option-cases, inl, inr,
}
use mathlib.Core.List.{append_assoc, concat-ne-nil}
use seasonal_weather.Same.{
  byte_bits, iter_afsk_bits_for_bytes, is_code_char, join_dash, header_text,
}
use seasonal_weather.Same.Fields.{SixDigits}
use seasonal_weather.Same.Decode.{
  HeaderMatch, parse_header, Decoded, decoded_header, is_decoded_sender_char, ends_with_dash,
  is_printable, accept, more, too_strange, judge, read_payload,
}
use seasonal_weather.Same.Decode.Parser.{
  parse_header_longer, parse_header-text_of, WellFormed, text_of,
}
use seasonal_weather.Same.Decode.Bits.{read_byte-byte_bits}

abbrev pub Printable : Text → Type 0
Printable = All (λ c. is_printable c ≡ true)

printable_char :
    (c : ℕ) → is_printable c ≡ true → (c < 256) × (c % 128 ≡ c) × ((c == 13 || c == 10) ≡ false)
unfolding is_printable
printable_char c h = (ground arith, ground arith, ground arith)

module _ (msg : Text) (found : Decoded) (last : judge msg ≡ accept found)
    (onward : (pre : Text) (c d : ℕ) (x : Text)
      → pre ++ c ∷ d ∷ x ≡ msg
      → judge (pre ++ c ∷ []) ≡ more) where
  read_payload_whole :
      (n : ℕ) (rest pre : Text) (noise : List ℕ)
      → rest ≢ []
      → length rest ≤ n
      → Printable rest
      → pre ++ rest ≡ msg
      → read_payload n (iter_afsk_bits_for_bytes rest ++ noise) pre ≡ some found
  unfolding read_payload iter_afsk_bits_for_bytes
  read_payload_whole n [] pre noise some_rest fits p e = absurd (some_rest refl)
  read_payload_whole zero (c ∷ r) pre noise some_rest fits p e = absurd (omega arith)
  read_payload_whole (suc n) (c ∷ []) pre noise some_rest fits (pc, p) e =
      let (byte, same, plain) = printable_char c pc in
      rw (append_assoc (byte_bits c) [] noise)
        (ground (arith, read_byte-byte_bits c noise byte, same, plain, pc, last, e))
  read_payload_whole (suc n) (c ∷ d ∷ r) pre noise some_rest fits (pc, p) e =
      let (byte, same, plain) = printable_char c pc in
      let later = iter_afsk_bits_for_bytes (d ∷ r) in
      rw (append_assoc (byte_bits c) later noise) (
        ground (
          arith,
          read_byte-byte_bits c (later ++ noise) byte,
          same,
          plain,
          pc,
          onward pre c d r e,
          read_payload_whole n (d ∷ r) (pre ++ c ∷ []) noise (λ q. cc) (omega arith) p
              (append_assoc pre (c ∷ []) (d ∷ r) ∙ e),
        ))

-- text that begins like a header
abbrev opening : Text → Text
opening tail = b'Z' ∷ b'C' ∷ b'Z' ∷ b'C' ∷ b'-' ∷ tail

opening_quiet :
    (pre tail x : Text) (d : ℕ)
    → pre ≢ []
    → pre ++ d ∷ x ≡ opening tail
    → (text_eq pre (codes "NNNN") ≡ false) × (too_strange pre ≡ false)
unfolding too_strange text_eq starts_with
opening_quiet [] tail x d h e = absurd (h refl)
opening_quiet (a ∷ []) tail x d h e = ground arith
opening_quiet (a ∷ b ∷ []) tail x d h e = ground arith
opening_quiet (a ∷ b ∷ c ∷ []) tail x d h e = ground arith
opening_quiet (a ∷ b ∷ c ∷ f ∷ []) tail x d h e = ground arith
opening_quiet (a ∷ b ∷ c ∷ f ∷ g ∷ r) tail x d h e = ground arith

-- no proper prefix of a header ends the loop
judge_onward :
    (m : HeaderMatch) (tail : Text) (pre : Text) (d : ℕ) (x : Text)
    → parse_header (opening tail) ≡ some m
    → pre ≢ []
    → pre ++ d ∷ x ≡ opening tail
    → judge pre ≡ more
judge_onward m tail pre d x whole h e =
    let (no_eom, plausible) = opening_quiet pre tail x d h e in
    elim (Option-cases (parse_header pre)) [
      | inl none_yet ↦ unfold judge in ground (arith, no_eom, plausible, none_yet)
      | inr (m', early) ↦
          absurd (ground (arith, parse_header_longer pre x m' d early, ap parse_header e, whole))
    ]

judge_last :
    (m : HeaderMatch) (tail : Text)
    → parse_header (opening tail) ≡ some m
    → ends_with_dash (opening tail) ≡ true
    → judge (opening tail) ≡ accept (decoded_header (opening tail) m)
unfolding judge text_eq starts_with
judge_last m tail whole dash = ground (arith, whole, dash)

ends_with_dash-append : (xs ys : Text) → ends_with_dash ys ≡ true → ends_with_dash (xs ++ ys) ≡ true
unfolding ends_with_dash
ends_with_dash-append [] ys h = h
ends_with_dash-append (x ∷ []) [] h = cc
ends_with_dash-append (x ∷ []) (y ∷ ys) h = h
ends_with_dash-append (x ∷ z ∷ xs) ys h = ends_with_dash-append (z ∷ xs) ys h

pub ends_with_dash-text_of : (m : HeaderMatch) → ends_with_dash (text_of m) ≡ true
unfolding header_text
ends_with_dash-text_of m =
    let dash : ends_with_dash (codes "-") ≡ true = unfold ends_with_dash in refl in
    let step = ends_with_dash-append in
    step (codes "ZCZC-") _ (
      step m.org _ (
        step (codes "-") _ (
          step m.event _ (
            step (codes "-") _ (
              step (join_dash m.locs) _ (
                step (codes "+") _ (
                  step m.tttt _ (
                    step (codes "-") _
                      (step m.jjjhhmm _ (step (codes "-") _ (step m.sender _ dash)))))))))))

Printable-of :
    (p : ℕ → Bool)
    → ((c : ℕ) → p c ≡ true → is_printable c ≡ true)
    → (s : Text) → All (λ c. p c ≡ true) s
    → Printable s
Printable-of p imp [] h = tt
Printable-of p imp (c ∷ s) (hc, h) = (imp c hc, Printable-of p imp s h)

code_char_printable : (c : ℕ) → is_code_char c ≡ true → is_printable c ≡ true
unfolding is_code_char is_printable is_upper is_digit
code_char_printable c h = ground arith

digit_printable : (c : ℕ) → is_digit c ≡ true → is_printable c ≡ true
unfolding is_printable is_digit
digit_printable c h = ground arith

sender_char_printable : (c : ℕ) → is_decoded_sender_char c ≡ true → is_printable c ≡ true
unfolding is_decoded_sender_char is_code_char is_printable is_upper is_digit
sender_char_printable c h = ground arith

Printable-join_dash : (ls : List Text) → SixDigits ls → Printable (join_dash ls)
unfolding join_dash
Printable-join_dash [] h = tt
Printable-join_dash (l ∷ []) (hl, h) = Printable-of is_digit digit_printable l hl.1
Printable-join_dash (l ∷ m ∷ ls) (hl, h) =
    All-append (λ c. is_printable c ≡ true) l (b'-' ∷ join_dash (m ∷ ls))
      (Printable-of is_digit digit_printable l hl.1)
      (unfold is_printable in refl, Printable-join_dash (m ∷ ls) h)

pub Printable-text_of : (m : HeaderMatch) → WellFormed m → Printable (text_of m)
unfolding header_text
Printable-text_of m w =
    let join = All-append (λ c. is_printable c ≡ true) in
    let dash : Printable (codes "-") = (unfold is_printable in refl, tt) in
    let plus : Printable (codes "+") = (unfold is_printable in refl, tt) in
    let start : Printable (codes "ZCZC-") =
      unfold is_printable in (refl, (refl, (refl, (refl, (refl, tt))))) in
    let code = Printable-of is_code_char code_char_printable in
    let digit = Printable-of is_digit digit_printable in
    join (codes "ZCZC-") _ start (
      join m.org _ (code m.org w.org.1) (
        join (codes "-") _ dash (
          join m.event _ (code m.event w.event.1) (
            join (codes "-") _ dash (
              join (join_dash m.locs) _ (Printable-join_dash m.locs w.locs) (
                join (codes "+") _ plus (
                  join m.tttt _ (digit m.tttt w.tttt.1) (
                    join (codes "-") _ dash (
                      join m.jjjhhmm _ (digit m.jjjhhmm w.jjjhhmm.1) (
                        join (codes "-") _ dash (
                          join m.sender _
                            (Printable-of is_decoded_sender_char sender_char_printable m.sender
                              w.sender.1)
                            dash)))))))))))

-- The loop over the payload of a well-formed header, whatever bits follow, gives the header.
pub read_payload-text_of :
    (m : HeaderMatch) (n : ℕ) (noise : List ℕ)
    → WellFormed m
    → length (text_of m) ≤ n
    → read_payload n (iter_afsk_bits_for_bytes (text_of m) ++ noise) []
      ≡ some (decoded_header (text_of m) m)
unfolding header_text
read_payload-text_of m n noise w fits =
    read_payload_whole (text_of m) (decoded_header (text_of m) m)
      (judge_last m _ (parse_header-text_of m w) (ends_with_dash-text_of m))
      (λ pre c d x e.
        judge_onward m _ (pre ++ c ∷ []) d x (parse_header-text_of m w) (concat-ne-nil c pre)
          (append_assoc pre (c ∷ []) (d ∷ x) ∙ e))
      n (text_of m) [] noise (λ e. cc) fits (Printable-text_of m w) refl
