-- ===== src/Vtec/Agreement.antt =====
-- The track of a VTEC line, as this parser and the tracker read it.
use seasonal_weather.Prelude.{
  ℕ, zero, suc, ◌+◌, Bool, true, false, Option, none, some, List, [], ◌∷◌, ◌++◌, ◌≡◌, refl, sym,
  ◌∙◌, ap, arith, if◌then◌else◌, take, drop, length, Text, codes, and-eq-true, is_upper, is_digit,
}
use seasonal_weather.Alert.{matches_at, is_alnum, vtec_track_id, search_vtec, vtec_pattern}
use seasonal_weather.Vtec.{
  ParsedVtec, track_id, squeeze, match_vtec, parse_vtec, vtec_head, read_times, head_fields, char,
  search_parse,
}

drop-nil : (a : ℕ) → drop {A = ℕ} a [] ≡ []
drop-nil zero = refl
drop-nil (suc a) = refl

drop-drop : (a b : ℕ) (s : Text) → drop a (drop b s) ≡ drop (b + a) s
drop-drop a zero s = ap (λ k. drop k s) {x = a} {y = 0 + a} (omega arith)
drop-drop a (suc b) [] = drop-nil a ∙ sym (drop-nil (suc b + a))
drop-drop a (suc b) (c ∷ s) =
    drop-drop a b s ∙ ap (λ k. drop k (c ∷ s)) {x = suc (b + a)} {y = suc b + a} (omega arith)

-- a text that fits a pattern splits at a dot of the pattern
take-dot :
    (ps qs : List (ℕ → Bool)) (n : ℕ) (s : Text)
    → matches_at (ps ++ char b'.' ∷ qs) s ≡ true
    → take (suc (length ps + n)) s
      ≡ take (length ps) s ++ (codes "." ++ take n (drop (suc (length ps)) s))
unfolding matches_at
take-dot [] qs n [] h = cc
take-dot [] qs n (c ∷ s) h = ground arith
take-dot (p ∷ ps) qs n [] h = cc
take-dot (p ∷ ps) qs n (c ∷ s) h =
    ap (λ k. take k (c ∷ s)) {x = suc (suc (length ps) + n)} {y = suc (suc (length ps + n))}
      (omega arith)
    ∙ ap (λ t. c ∷ t) (take-dot ps qs n s (and-eq-true (p c) _ h).1)

drop-matches_at :
    (ps qs : List (ℕ → Bool)) (s : Text)
    → matches_at (ps ++ qs) s ≡ true
    → matches_at qs (drop (length ps) s) ≡ true
unfolding matches_at
drop-matches_at [] qs s h = h
drop-matches_at (p ∷ ps) qs [] h = cc
drop-matches_at (p ∷ ps) qs (c ∷ s) h = drop-matches_at ps qs s (and-eq-true (p c) _ h).1

track_id_head : Text → Text
track_id_head m =
    take 4 (drop 7 m)
    ++ (codes "."
        ++ (take 2 (drop 12 m)
            ++ (codes "." ++ (take 1 (drop 15 m) ++ (codes "." ++ take 4 (drop 17 m))))))

-- the track lies in one piece in the head
take-head : (m : Text) → matches_at vtec_head m ≡ true → take 14 (drop 7 m) ≡ track_id_head m
unfolding vtec_head track_id_head
take-head m h =
    let upper4 = is_upper ∷ is_upper ∷ is_upper ∷ is_upper ∷ [] in
    let lead = char b'/' ∷ is_upper ∷ char b'.' ∷ is_upper ∷ is_upper ∷ is_upper ∷ char b'.' ∷ [] in
    let etn = is_digit ∷ is_digit ∷ is_digit ∷ is_digit ∷ char b'.' ∷ [] in
    let sig = is_upper ∷ char b'.' ∷ etn in
    let phen = is_alnum ∷ is_alnum ∷ char b'.' ∷ sig in
    let h7 = drop-matches_at lead (upper4 ++ char b'.' ∷ phen) m h in
    let h12 = drop-matches_at (lead ++ upper4 ++ char b'.' ∷ []) phen m h in
    let h15 =
      drop-matches_at (lead ++ upper4 ++ char b'.' ∷ is_alnum ∷ is_alnum ∷ char b'.' ∷ []) sig m
        h in
    take-dot upper4 phen 9 (drop 7 m) h7
    ∙ ap (λ t. take 4 (drop 7 m) ++ (codes "." ++ t))
        (ap (take 9) (drop-drop 5 7 m)
          ∙ (take-dot (is_alnum ∷ is_alnum ∷ []) sig 6 (drop 12 m) h12
              ∙ ap (λ t. take 2 (drop 12 m) ++ (codes "." ++ t))
                  (ap (take 6) (drop-drop 3 12 m)
                    ∙ (take-dot (is_upper ∷ []) etn 4 (drop 15 m) h15
                        ∙ ap (λ t. take 1 (drop 15 m) ++ (codes "." ++ take 4 t))
                            (drop-drop 2 15 m)))))

match_vtec-head :
    (raw s : Text) (v : ParsedVtec)
    → match_vtec raw s ≡ some v
    → (matches_at vtec_head s ≡ true) × (track_id v ≡ track_id_head s)
unfolding match_vtec track_id track_id_head head_fields
match_vtec-head raw s v e = go (read_times (drop 22 s)) (matches_at vtec_head s) refl e
  where
    go :
        (times : Option (Text × Text)) (fits : Bool)
        → matches_at vtec_head s ≡ fits
        → (elim times [ none ↦ none | some t ↦ if fits then some (head_fields raw s t) else none ])
          ≡ some v
        → (matches_at vtec_head s ≡ true) × (track_id v ≡ track_id_head s)
    go none fits h e = cc
    go (some (start, end)) true h e = (
      h,
      unfold head_fields track_id track_id_head in
          ap (λ (o : Option ParsedVtec). elim o [ none ↦ [] | some w ↦ track_id w ]) (sym e),
    )
    go (some times) false h e = cc

-- Where a text begins with a whole VTEC line, white space apart, the parser finds that line and the
-- tracker reads the same track from it.
pub vtec_track_id-parse_vtec :
    (raw : Text) (v : ParsedVtec)
    → match_vtec raw (squeeze raw) ≡ some v
    → (parse_vtec raw ≡ some v) × (vtec_track_id raw ≡ some (track_id v))
unfolding parse_vtec vtec_track_id
vtec_track_id-parse_vtec raw v e = go (squeeze raw) e
  where
    go :
        (s : Text)
        → match_vtec raw s ≡ some v
        → (search_parse raw s ≡ some v)
          × ((elim (search_vtec s) [ none ↦ none | some m ↦ some (take 14 (drop 7 m)) ])
              ≡ some (track_id v))
    go [] e = unfold matches_at vtec_head in cc (match_vtec-head raw [] v e).0
    go (c ∷ s) e =
        let (fits, track) = match_vtec-head raw (c ∷ s) v e in
        (
          unfold search_parse in rw (e, search_parse) refl,
          unfold search_vtec vtec_head vtec_pattern in
              rw fits (ap some (take-head (c ∷ s) fits ∙ sym track)),
        )
