-- ===== src/Vtec/Toneout/Decision.antt =====
-- When a product airs with SAME tones.
use seasonal_weather.Prelude.{
  Bool, true, false, not, ◌&&◌, Option, none, some, List, [], ◌∷◌, ◌≡◌, refl, ap, arith,
  if◌then◌else◌, is_some, any, keep, nonempty, Text, text_in, Dict, get, Bool-cases, inl, inr,
}
use seasonal_weather.Vtec.{ParsedVtec, phen_sig, parse_vtec_list}
use seasonal_weather.Vtec.Codes.{voice_only_phen_sig, phen_sig_to_same}
use seasonal_weather.Vtec.Toneout.{
  ToneoutPolicy, full, voice, is_full_action, is_same_eligible, same_code_of, new_policy,
  is_allowed, no_policy, full_policy, eligible_policy, voice_only_policy, policy_of,
  cancel_tracks_of, continuation_tracks_of, toneout_policy,
}

-- what a line asks for by itself: a code unless its phenomenon stays voice-only
abbrev pub tone_code : ParsedVtec → Option Text
tone_code v = if text_in (phen_sig v) voice_only_phen_sig then none else same_code_of v

-- The first warning or watch that is new, upgraded or extended in area decides.
abbrev pub deciding_code : List ParsedVtec → Option Text
deciding_code [] = none
deciding_code (v ∷ vs) =
    if is_same_eligible v && is_full_action v then tone_code v else deciding_code vs

-- a policy with this code, the mode that goes with it, and the tracks of the lines
abbrev pub Decides : List ParsedVtec → Option Text → Option ToneoutPolicy → Type 0
Decides parsed code result =
    (policy : ToneoutPolicy) × (result ≡ some policy)
    × (policy.same_code ≡ code)
    × (policy.mode ≡ (if is_some code then full else voice))
    × (policy.cancel_tracks ≡ cancel_tracks_of parsed)
    × (policy.continuation_tracks ≡ continuation_tracks_of parsed)

get-nonempty :
    (k : Text) (d : Dict Text) (v : Text)
    → any (λ (item : Text × Text). not (nonempty item.1)) d ≡ false
    → get k d ≡ some v
    → nonempty v ≡ true
unfolding get
get-nonempty k [] v h e = cc
get-nonempty k ((j, w) ∷ d) v h e = ground (arith, get-nonempty k d v)

-- no code of the table is empty
same_code_of-nonempty :
    (v : ParsedVtec) (code : Text) → same_code_of v ≡ some code → nonempty code ≡ true
unfolding same_code_of phen_sig_to_same
same_code_of-nonempty v code e = get-nonempty (phen_sig v) phen_sig_to_same code refl e

no_policy-Decides :
    (parsed : List ParsedVtec) (reason : Text) (primary : Option ParsedVtec)
    → Decides parsed none (no_policy parsed reason primary)
unfolding no_policy new_policy is_allowed
no_policy-Decides parsed reason primary = (_, refl, refl, refl, refl, refl)

full_policy-Decides :
    (parsed : List ParsedVtec) (v : ParsedVtec)
    → Decides parsed (tone_code v) (full_policy parsed v)
unfolding full_policy new_policy is_allowed
full_policy-Decides parsed v = go (same_code_of v) refl
  where
    quiet_tone : (quiet : Bool) → if◌then◌else◌ {A = Option Text} quiet none none ≡ none
    quiet_tone true = refl
    quiet_tone false = refl

    go :
        (code : Option Text)
        → same_code_of v ≡ code
        → Decides parsed (tone_code v) (full_policy parsed v)
    go none e =
        rw (e, full_policy, quiet_tone (text_in (phen_sig v) voice_only_phen_sig))
          (no_policy-Decides parsed _ (some v))
    go (some code) e = elim (Bool-cases (text_in (phen_sig v) voice_only_phen_sig)) [
      | inl quiet ↦ rw (e, full_policy, quiet) (no_policy-Decides parsed _ (some v))
      | inr loud ↦
          rw (e, full_policy, loud, new_policy, same_code_of-nonempty v code e)
            (_, refl, refl, refl, refl, refl)
    ]

-- the candidates in front
first_code : List ParsedVtec → Option Text
first_code [] = none
first_code (v ∷ vs) = tone_code v

first_code-eq-deciding_code :
    (vs : List ParsedVtec)
    → first_code (keep is_full_action (keep is_same_eligible vs)) ≡ deciding_code vs
unfolding first_code
first_code-eq-deciding_code [] = refl
first_code-eq-deciding_code (v ∷ vs) = elim (Bool-cases (is_same_eligible v)) [
  | inl may ↦ elim (Bool-cases (is_full_action v)) [
    | inl does ↦ rw (may, does) refl
    | inr not_now ↦ rw (may, not_now) (first_code-eq-deciding_code vs)
  ]
  | inr never ↦ rw never (first_code-eq-deciding_code vs)
]

eligible_policy-Decides :
    (parsed : List ParsedVtec) (first : ParsedVtec) (eligible candidates : List ParsedVtec)
    → Decides parsed (first_code candidates) (eligible_policy parsed first eligible candidates)
unfolding eligible_policy first_code
eligible_policy-Decides parsed first eligible [] = no_policy-Decides parsed _ (some first)
eligible_policy-Decides parsed first eligible (v ∷ vs) = full_policy-Decides parsed v

policy_of-Decides :
    (parsed eligible : List ParsedVtec)
    → (parsed ≡ [] → eligible ≡ [])
    → Decides parsed (first_code (keep is_full_action eligible)) (policy_of parsed eligible)
unfolding policy_of voice_only_policy
policy_of-Decides [] [] h = unfold first_code in no_policy-Decides [] _ none
policy_of-Decides [] (e ∷ eligible) h = cc (h refl)
policy_of-Decides (first ∷ rest) [] h =
    unfold first_code in no_policy-Decides (first ∷ rest) _ (some first)
policy_of-Decides (first ∷ rest) (e ∷ eligible) h =
    eligible_policy-Decides (first ∷ rest) e (e ∷ eligible) (keep is_full_action (e ∷ eligible))

-- `toneout_policy` returns for every input. Its code is what the first warning or watch with a new,
-- upgraded or area-extending action asks for, and none where there is no such line, where the line's
-- phenomenon is not in the table or stays voice-only; its mode is full just when there is a code; and
-- it has the tracks that the lines cancel or continue.
pub toneout_policy-Decides :
    (vtec_strings : List Text)
    → Decides
        (parse_vtec_list vtec_strings)
        (deciding_code (parse_vtec_list vtec_strings))
        (toneout_policy vtec_strings)
unfolding toneout_policy
toneout_policy-Decides vtec_strings =
    let parsed = parse_vtec_list vtec_strings in
    rw⁻¹ (first_code-eq-deciding_code parsed)
      (policy_of-Decides parsed (keep is_same_eligible parsed) (λ e. ap (keep is_same_eligible) e))
