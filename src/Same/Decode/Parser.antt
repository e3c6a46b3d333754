-- ===== src/Same/Decode/Parser.antt =====
-- The header's pattern: what it matches, and that a match ends where it ends.
use seasonal_weather.Prelude.{
  ℕ, zero, suc, ◌≤◌, ◌<◌, ◌≡◌, ◌≢◌, refl, Bool, true, false, Option, none, some, List, [], ◌∷◌,
  ◌++◌, arith, length, length-append, All, Text, codes, is_digit, Option-cases, inl, inr,
}
use mathlib.Core.Path.{subst}
use mathlib.Core.List.{append_assoc}
use seasonal_weather.Same.{is_code_char, join_dash, header_text}
use seasonal_weather.Same.Fields.{Class, SixDigits}
use seasonal_weather.Same.Decode.{
  Matcher, ◌>>=◌, matched, expect, take_class, after_location, behind, read_locs, match_locs,
  is_decoded_sender_char, HeaderMatch, match_prefix, parse_header,
}

-- `m` reads no further than where its match ends
record Extends {ℓ} {A : Type ℓ} (m : Matcher A) : Type ℓ where
  at : (s x : Text) (a : A) (r : Text) → m s ≡ some (a, r) → m (s ++ x) ≡ some (a, r ++ x)

expect_extends :
    (lit s x : Text) (a : Unit {0}) (r : Text)
    → expect lit s ≡ some (a, r)
    → expect lit (s ++ x) ≡ some (a, r ++ x)
unfolding expect
expect_extends [] s x a r e = ground arith
expect_extends (b ∷ lit) [] x a r e = cc
expect_extends (b ∷ lit) (c ∷ s) x a r e = ground (arith, expect_extends lit s x a r)

expect-Extends : (lit : Text) → Extends (expect lit)
expect-Extends lit = record { at = expect_extends lit }

take_class_extends :
    (p : ℕ → Bool) (n : ℕ) (s x : Text) (a r : Text)
    → take_class p n s ≡ some (a, r)
    → take_class p n (s ++ x) ≡ some (a, r ++ x)
unfolding take_class
take_class_extends p zero s x a r e = ground arith
take_class_extends p (suc n) [] x a r e = cc
take_class_extends p (suc n) (c ∷ s) x a r e = elim (Option-cases (take_class p n s)) [
  | inl bad ↦ ground (arith, bad)
  | inr ((xs, t), ok) ↦ ground (arith, ok, take_class_extends p n s x xs t ok)
]

take_class-Extends : (p : ℕ → Bool) (n : ℕ) → Extends (take_class p n)
take_class-Extends p n = record { at = take_class_extends p n }

matched-Extends {ℓ} : {A : Type ℓ} (a : A) → Extends (matched a)
unfolding matched
matched-Extends a = record { at = λ s x b r e. ground arith }

bind-Extends {ℓ κ} :
    {A : Type ℓ} {B : Type κ} (m : Matcher A) (f : A → Matcher B)
    → Extends m
    → ((a : A) → Extends (f a))
    → Extends (m >>= f)
unfolding ◌>>=◌
bind-Extends m f hm hf = record {
  at = λ s x b r e. elim (Option-cases (m s)) [
    | inl bad ↦ absurd (ground (arith, bad))
    | inr ((a, t), ok) ↦ rw (hm.at s x a t ok, ◌>>=◌) ((hf a).at t x b r (rw (ok, ◌>>=◌) at e))
  ];
}

after_location_extends :
    (t x : Text) (b : Bool)
    → after_location t ≡ some b
    → (after_location (t ++ x) ≡ some b) × (behind (t ++ x) ≡ behind t ++ x)
unfolding after_location behind
after_location_extends [] x b e = cc
after_location_extends (c ∷ t) x b e = (e, refl)

read_locs_extends :
    (fuel k : ℕ) (s x : Text) (a : List Text) (r : Text)
    → read_locs fuel s ≡ some (a, r)
    → fuel ≤ k
    → read_locs k (s ++ x) ≡ some (a, r ++ x)
unfolding read_locs
read_locs_extends zero k s x a r e h = cc
read_locs_extends (suc fuel) zero s x a r e h = absurd (omega arith)
read_locs_extends (suc fuel) (suc k) s x a r e h = elim (Option-cases (take_class is_digit 6 s)) [
  | inl bad ↦ absurd (ground (arith, bad))
  | inr ((loc, t), ok) ↦ elim (Option-cases (after_location t)) [
    | inl bad ↦ absurd (ground (arith, ok, bad))
    | inr (false, done) ↦ ground (
      arith,
      ok,
      done,
      take_class_extends is_digit 6 s x loc t ok,
      after_location_extends t x false done,
    )
    | inr (true, again) ↦ elim (Option-cases (read_locs fuel (behind t))) [
      | inl bad ↦ absurd (ground (arith, ok, again, bad))
      | inr ((locs, u), more) ↦ ground (
        arith,
        ok,
        again,
        more,
        take_class_extends is_digit 6 s x loc t ok,
        after_location_extends t x true again,
        read_locs_extends fuel k (behind t) x locs u more,
      )
    ]
  ]
]

match_locs-Extends : Extends match_locs
unfolding match_locs
match_locs-Extends = record {
  at = λ s x a r e.
      read_locs_extends (length s) (length (s ++ x)) s x a r e (omega (arith, length-append s x));
}

match_prefix-Extends : Extends match_prefix
unfolding match_prefix
match_prefix-Extends =
    search (bind-Extends, matched-Extends, expect-Extends, take_class-Extends, match_locs-Extends)
      depth 40

-- A text that begins with a whole header and goes on is no header.
pub parse_header_longer :
    (s x : Text) (m : HeaderMatch) (c : ℕ)
    → parse_header s ≡ some m
    → parse_header (s ++ c ∷ x) ≡ none
unfolding parse_header
parse_header_longer s x m c e = elim (Option-cases (match_prefix s)) [
  | inl bad ↦ absurd (ground (arith, bad))
  | inr ((m', []), ok) ↦ ground (arith, match_prefix-Extends.at s (c ∷ x) m' [] ok)
  | inr ((m', d ∷ r), ok) ↦ absurd (ground (arith, ok))
]

expect-append : (lit rest : Text) → expect lit (lit ++ rest) ≡ some (tt, rest)
unfolding expect
expect-append [] rest = refl
expect-append (a ∷ lit) rest = ground (arith, expect-append lit rest)

take_class-append :
    (p : ℕ → Bool) (xs rest : Text)
    → All (λ c. p c ≡ true) xs
    → take_class p (length xs) (xs ++ rest) ≡ some (xs, rest)
unfolding take_class
take_class-append p [] rest h = refl
take_class-append p (c ∷ xs) rest (hc, h) = ground (arith, hc, take_class-append p xs rest h)

pub take_class_of_Class :
    (p : ℕ → Bool) (n : ℕ) (xs rest : Text)
    → Class p n xs
    → take_class p n (xs ++ rest) ≡ some (xs, rest)
take_class_of_Class p n xs rest (len, h) =
    subst (λ k. take_class p k (xs ++ rest) ≡ some (xs, rest)) len (take_class-append p xs rest h)

read_locs-join_dash :
    (fuel : ℕ) (l : Text) (ls : List Text) (rest : Text)
    → length ls < fuel
    → SixDigits (l ∷ ls)
    → read_locs fuel (join_dash (l ∷ ls) ++ b'+' ∷ rest) ≡ some (l ∷ ls, rest)
unfolding read_locs join_dash after_location behind
read_locs-join_dash zero l ls rest h six = absurd (omega arith)
read_locs-join_dash (suc fuel) l [] rest h (six, _) =
    rw (take_class_of_Class is_digit 6 l (b'+' ∷ rest) six, read_locs)
read_locs-join_dash (suc fuel) l (m ∷ ls) rest h (six, more) =
    let tail = join_dash (m ∷ ls) ++ b'+' ∷ rest in
    rw (append_assoc l (b'-' ∷ join_dash (m ∷ ls)) (b'+' ∷ rest)) (
      rw (take_class_of_Class is_digit 6 l (b'-' ∷ tail) six, read_locs)
        (rw (read_locs-join_dash fuel m ls rest (omega arith) more, read_locs)))

length-join_dash : (l : Text) (ls : List Text) → length ls ≤ length (join_dash (l ∷ ls))
unfolding join_dash
length-join_dash l [] = omega arith
length-join_dash l (m ∷ ls) =
    omega (arith, length-append {0} l (b'-' ∷ join_dash (m ∷ ls)), length-join_dash m ls)

match_locs-join_dash :
    (ls : List Text) (rest : Text)
    → ls ≢ []
    → SixDigits ls
    → match_locs (join_dash ls ++ b'+' ∷ rest) ≡ some (ls, rest)
unfolding match_locs
match_locs-join_dash [] rest some_loc six = absurd (some_loc refl)
match_locs-join_dash (l ∷ ls) rest some_loc six =
    read_locs-join_dash (length (join_dash (l ∷ ls) ++ b'+' ∷ rest)) l ls rest
      (omega (arith, length-join_dash l ls, length-append {0} (join_dash (l ∷ ls)) (b'+' ∷ rest)))
      six

bind_matched {ℓ κ} :
    {A : Type ℓ} {B : Type κ} (m : Matcher A) (f : A → Matcher B) (s : Text) {a : A} {t : Text}
    {r : Option (B × Text)}
    → m s ≡ some (a, t)
    → f a t ≡ r
    → (m >>= f) s ≡ r
unfolding ◌>>=◌
bind_matched m f s e k = rw (e, ◌>>=◌) k

-- the fields of a header as the pattern wants them
pub record WellFormed (m : HeaderMatch) : Type 0 where
  pub org : Class is_code_char 3 m.org
  pub event : Class is_code_char 3 m.event
  pub some_loc : m.locs ≢ []
  pub locs : SixDigits m.locs
  pub tttt : Class is_digit 4 m.tttt
  pub jjjhhmm : Class is_digit 7 m.jjjhhmm
  pub sender : Class is_decoded_sender_char 8 m.sender

abbrev pub text_of : HeaderMatch → Text
text_of m = header_text m.org m.event (join_dash m.locs) m.tttt m.jjjhhmm m.sender

-- The pattern reads a well-formed header's fields back.
pub parse_header-text_of : (m : HeaderMatch) → WellFormed m → parse_header (text_of m) ≡ some m
parse_header-text_of m w = unfold parse_header in rw (matches, parse_header)
  where
    matches : match_prefix (text_of m) ≡ some (m, [])
    matches =
        unfold match_prefix header_text matched in
        bind_matched (expect (codes "ZCZC-")) _ _ (expect-append (codes "ZCZC-") _) (
          bind_matched (take_class is_code_char 3) _ _
            (take_class_of_Class is_code_char 3 m.org _ w.org)
            (bind_matched (expect (codes "-")) _ _ (expect-append (codes "-") _) (
              bind_matched (take_class is_code_char 3) _ _
                (take_class_of_Class is_code_char 3 m.event _ w.event)
                (bind_matched (expect (codes "-")) _ _ (expect-append (codes "-") _) (
                  bind_matched match_locs _ _ (match_locs-join_dash m.locs _ w.some_loc w.locs) (
                    bind_matched (take_class is_digit 4) _ _
                      (take_class_of_Class is_digit 4 m.tttt _ w.tttt)
                      (bind_matched (expect (codes "-")) _ _ (expect-append (codes "-") _) (
                        bind_matched (take_class is_digit 7) _ _
                          (take_class_of_Class is_digit 7 m.jjjhhmm _ w.jjjhhmm)
                          (bind_matched (expect (codes "-")) _ _ (expect-append (codes "-") _) (
                            bind_matched (take_class is_decoded_sender_char 8) _ _
                              (take_class_of_Class is_decoded_sender_char 8 m.sender _ w.sender)
                              (bind_matched (expect (codes "-")) _ _ (expect-append (codes "-") [])
                                refl)))))))))))
