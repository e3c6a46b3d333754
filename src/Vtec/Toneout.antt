-- ===== src/Vtec/Toneout.antt =====
-- seasonalweather/alerts/vtec.py: `toneout_policy`, which decides whether a product airs with SAME tones.
pub mod Decision
pub mod Tracks
mod Examples
use seasonal_weather.Prelude.{
  ℕ, Bool, true, false, not, ◌&&◌, ◌||◌, Option, none, some, List, [], ◌∷◌, ◌++◌, if◌then◌else◌,
  is_some, keep, map, nonempty, Text, codes, text_eq, text_in, text_le, sort_by, get,
}
use seasonal_weather.Same.{distinct}
use seasonal_weather.Vtec.{ParsedVtec, phen_sig, track_id, parse_vtec_list}
use seasonal_weather.Vtec.Codes.{
  sig_same_eligible, sig_labels, full_actions, voice_only_phen_sig, phen_sig_to_same,
}

pub data ToneoutMode : Type 0 where
  full : ToneoutMode
  voice : ToneoutMode

pub record ToneoutPolicy : Type 0 where
  pub mode : ToneoutMode
  pub same_code : Option Text
  pub reason : Text
  pub primary_vtec : Option ParsedVtec
  pub cancel_tracks : List Text
  pub continuation_tracks : List Text

pub is_full_action : ParsedVtec → Bool
is_full_action v = text_in v.action full_actions

pub is_same_eligible : ParsedVtec → Bool
is_same_eligible v = text_in v.significance sig_same_eligible

pub same_code_of : ParsedVtec → Option Text
same_code_of v = get (phen_sig v) phen_sig_to_same

pub sig_label : Text → Text
sig_label sig = elim (get sig sig_labels) [ none ↦ sig | some label ↦ label ]

-- the sets that the loop fills, without repetition
pub tracks_of : List Text → List ParsedVtec → List Text
tracks_of actions parsed = distinct (map track_id (keep (λ v. text_in v.action actions) parsed))

pub cancel_tracks_of : List ParsedVtec → List Text
cancel_tracks_of parsed = tracks_of (codes "CAN" ∷ codes "EXP" ∷ []) parsed

pub continuation_tracks_of : List ParsedVtec → List Text
continuation_tracks_of parsed =
    tracks_of (codes "CON" ∷ codes "EXT" ∷ codes "COR" ∷ codes "ROU" ∷ []) parsed

-- `__post_init__`: none is its ValueError
pub is_allowed : ToneoutMode → Option Text → Bool
is_allowed full none = false
is_allowed full (some code) = nonempty code
is_allowed voice code = not (is_some code)

pub new_policy : ToneoutPolicy → Option ToneoutPolicy
new_policy policy = if is_allowed policy.mode policy.same_code then some policy else none

-- `sep.join(texts)`
pub join : Text → List Text → Text
join sep [] = []
join sep (t ∷ []) = t
join sep (t ∷ u ∷ ts) = t ++ (sep ++ join sep (u ∷ ts))

pub sorted_set : List Text → List Text
sorted_set values = sort_by text_le (distinct values)

pub no_policy : List ParsedVtec → Text → Option ParsedVtec → Option ToneoutPolicy
no_policy parsed reason primary = new_policy (record {
  mode = voice;
  same_code = none;
  reason = reason;
  primary_vtec = primary;
  cancel_tracks = cancel_tracks_of parsed;
  continuation_tracks = continuation_tracks_of parsed;
})

pub sig_and_action : ParsedVtec → Text
sig_and_action v = codes "sig=" ++ (v.significance ++ (codes ":action=" ++ v.action))

-- the case of a full action on a significance that may have tones
pub full_policy : List ParsedVtec → ParsedVtec → Option ToneoutPolicy
full_policy parsed primary = elim (same_code_of primary) [
  | none ↦
      no_policy parsed
        (sig_and_action primary
          ++ (codes ":phen=" ++ (primary.phenomena ++ codes ":no-same-table-entry")))
        (some primary)
  | some code ↦
      if text_in (phen_sig primary) voice_only_phen_sig
      then no_policy parsed
          (sig_and_action primary
            ++ (codes ":phen_sig=" ++ (phen_sig primary ++ codes ":policy-voice-only")))
          (some primary)
      else new_policy (record {
        mode = full;
        same_code = some code;
        reason =
            codes "sig="
            ++ (primary.significance
                ++ (codes ":"
                    ++ (sig_label primary.significance
                        ++ (codes ":action="
                            ++ (primary.action ++ (codes ":phen_sig=" ++ phen_sig primary))))));
        primary_vtec = some primary;
        cancel_tracks = cancel_tracks_of parsed;
        continuation_tracks = continuation_tracks_of parsed;
      })
]

-- `eligible` holds the lines whose significance may have tones; the first one of a full action leads
pub eligible_policy :
    List ParsedVtec → ParsedVtec → List ParsedVtec → List ParsedVtec → Option ToneoutPolicy
eligible_policy parsed first eligible [] =
    no_policy parsed
      (codes "sig="
        ++ (first.significance
            ++ (codes ":action="
                ++ (join (codes ",") (sorted_set (map (λ (v : ParsedVtec). v.action) eligible))
                    ++ codes ":non-full-action"))))
      (some first)
eligible_policy parsed first eligible (primary ∷ full_candidates) = full_policy parsed primary

-- no line may have tones
pub voice_only_policy : List ParsedVtec → ParsedVtec → Option ToneoutPolicy
voice_only_policy parsed first =
    let sigs =
      sorted_set
        (map (λ (v : ParsedVtec). v.significance) (keep (λ v. not (is_same_eligible v)) parsed)) in
    no_policy parsed
      (codes "sig="
        ++ (join (codes ",") sigs
            ++ (codes ":" ++ (join (codes "/") (map sig_label sigs) ++ codes ":voice-only"))))
      (some first)

pub policy_of : List ParsedVtec → List ParsedVtec → Option ToneoutPolicy
policy_of [] eligible = no_policy [] (codes "no-vtec") none
policy_of (first ∷ rest) [] = voice_only_policy (first ∷ rest) first
policy_of (first ∷ rest) (e ∷ eligible) =
    eligible_policy (first ∷ rest) e (e ∷ eligible) (keep is_full_action (e ∷ eligible))

pub toneout_policy : List Text → Option ToneoutPolicy
toneout_policy vtec_strings =
    let parsed = parse_vtec_list vtec_strings in policy_of parsed (keep is_same_eligible parsed)

-- the loop of `same_codes_for_vtec`
pub codes_from : List Text → List ParsedVtec → List Text
codes_from seen [] = []
codes_from seen (v ∷ vs) = elim (same_code_of v) [
  | none ↦ codes_from seen vs
  | some code ↦
      let later = codes_from (code ∷ seen) vs in
      let without = codes_from seen vs in
      if not (nonempty code) || text_in code seen then without else code ∷ later
]

pub same_codes_for_vtec : List Text → List Text
same_codes_for_vtec vtec_strings = codes_from [] (parse_vtec_list vtec_strings)
