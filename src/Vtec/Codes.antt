-- ===== src/Vtec/Codes.antt =====
-- seasonalweather/alerts/vtec.py: the tables of significances, actions and phenomena.
use seasonal_weather.Prelude.{
  Option, List, [], ◌∷◌, ◌++◌, map, Text, codes, strip, upper, get, Dict,
}
use Prim.Native.String.{String}

-- a table with its keys and values as written
abbrev table : List (String × String) → Dict Text
table rows = map (λ ((k, v) : String × String). (codes k, codes v)) rows

unfoldable pub sig_same_eligible : List Text
sig_same_eligible = map codes ("W" ∷ "A" ∷ [])

unfoldable pub sig_labels : Dict Text
sig_labels = table (
    ("W", "Warning")
    ∷ ("A", "Watch")
    ∷ ("Y", "Advisory")
    ∷ ("S", "Statement")
    ∷ ("F", "Forecast")
    ∷ ("O", "Outlook")
    ∷ ("N", "Synopsis")
    ∷ [])

unfoldable pub full_actions : List Text
full_actions = map codes ("NEW" ∷ "UPG" ∷ "EXA" ∷ "EXB" ∷ [])

-- known pairs that stay voice-only
unfoldable pub voice_only_phen_sig : List Text
voice_only_phen_sig = map codes (
    "FZ.A" ∷ "XH.W" ∷ "XH.A" ∷ "EC.W" ∷ "EC.A" ∷ "CW.Y" ∷ "SP.S" ∷ "EH.W" ∷ "EH.A" ∷ "HZ.W" ∷ "HZ.A"
    ∷ "WC.W" ∷ "WC.A" ∷ "WC.Y" ∷ [])

unfoldable pub phen_sig_to_same : Dict Text
phen_sig_to_same = table (
    ("CF.W", "CFW")
    ∷ ("CF.A", "CFA")
    ∷ ("TO.W", "TOR")
    ∷ ("TO.A", "TOA")
    ∷ ("SV.W", "SVR")
    ∷ ("SV.A", "SVA")
    ∷ ("FF.W", "FFW")
    ∷ ("FF.A", "FFA")
    ∷ ("FA.W", "FLW")
    ∷ ("FA.A", "FLA")
    ∷ ("FL.W", "FLW")
    ∷ ("FL.A", "FLA")
    ∷ ("WS.W", "WSW")
    ∷ ("WS.A", "WSA")
    ∷ ("BZ.W", "BZW")
    ∷ ("IS.W", "ISW")
    ∷ ("FZ.W", "FZW")
    ∷ ("HW.W", "HWW")
    ∷ ("HW.A", "HWA")
    ∷ ("EW.W", "EWW")
    ∷ ("HU.W", "HUW")
    ∷ ("HU.A", "HUA")
    ∷ ("TR.W", "TRW")
    ∷ ("TR.A", "TRA")
    ∷ ("SS.W", "SSW")
    ∷ ("SS.A", "SSA")
    ∷ ("TS.W", "TSW")
    ∷ ("TS.A", "TSA")
    ∷ ("AV.W", "AVW")
    ∷ ("AV.A", "AVA")
    ∷ ("DS.W", "DSW")
    ∷ ("EQ.W", "EQW")
    ∷ ("VO.W", "VOW")
    ∷ ("FW.W", "FRW")
    ∷ ("SQ.W", "SQW")
    ∷ ("CD.W", "CDW")
    ∷ ("NU.W", "NUW")
    ∷ ("LE.W", "LEW")
    ∷ ("SP.W", "SPW")
    ∷ ("RH.W", "RHW")
    ∷ ("MA.W", "SMW")
    ∷ ("SP.S", "SPS")
    ∷ [])

pub phen_sig_to_label : Dict Text
phen_sig_to_label = table (
    ("TO.W", "Tornado Warning")
    ∷ ("TO.A", "Tornado Watch")
    ∷ ("SV.W", "Severe Thunderstorm Warning")
    ∷ ("SV.A", "Severe Thunderstorm Watch")
    ∷ ("EW.W", "Extreme Wind Warning")
    ∷ ("FF.W", "Flash Flood Warning")
    ∷ ("FF.A", "Flash Flood Watch")
    ∷ ("FF.Y", "Flash Flood Advisory")
    ∷ ("FA.W", "Flood Warning")
    ∷ ("FA.A", "Flood Watch")
    ∷ ("FA.Y", "Flood Advisory")
    ∷ ("FL.W", "Flood Warning")
    ∷ ("FL.A", "Flood Watch")
    ∷ ("FL.Y", "Flood Advisory")
    ∷ ("CF.W", "Coastal Flood Warning")
    ∷ ("CF.A", "Coastal Flood Watch")
    ∷ ("CF.Y", "Coastal Flood Advisory")
    ∷ ("SS.W", "Storm Surge Warning")
    ∷ ("SS.A", "Storm Surge Watch")
    ∷ ("SU.W", "High Surf Warning")
    ∷ ("SU.Y", "High Surf Advisory")
    ∷ ("BH.S", "Beach Hazards Statement")
    ∷ ("RP.S", "Rip Current Statement")
    ∷ ("HU.W", "Hurricane Warning")
    ∷ ("HU.A", "Hurricane Watch")
    ∷ ("HU.S", "Hurricane Local Statement")
    ∷ ("TR.W", "Tropical Storm Warning")
    ∷ ("TR.A", "Tropical Storm Watch")
    ∷ ("TY.W", "Typhoon Warning")
    ∷ ("TY.A", "Typhoon Watch")
    ∷ ("MA.W", "Special Marine Warning")
    ∷ ("SC.Y", "Small Craft Advisory")
    ∷ ("SE.W", "Hazardous Seas Warning")
    ∷ ("SE.A", "Hazardous Seas Watch")
    ∷ ("GL.W", "Gale Warning")
    ∷ ("GL.A", "Gale Watch")
    ∷ ("SR.W", "Storm Warning")
    ∷ ("SR.A", "Storm Watch")
    ∷ ("HF.W", "Hurricane Force Wind Warning")
    ∷ ("HF.A", "Hurricane Force Wind Watch")
    ∷ ("MH.W", "Marine Hurricane Force Wind Warning")
    ∷ ("MH.Y", "Marine Hurricane Force Wind Advisory")
    ∷ ("UP.W", "Ice Accretion Warning")
    ∷ ("UP.Y", "Freezing Spray Advisory")
    ∷ ("RB.Y", "Small Craft Advisory for Rough Bar")
    ∷ ("SI.Y", "Small Craft Advisory for Rough Bar")
    ∷ ("SW.Y", "Small Craft Advisory for Winds")
    ∷ ("LO.Y", "Lake Wind Advisory")
    ∷ ("MS.Y", "Dense Fog Advisory for Mariners")
    ∷ ("TS.W", "Tsunami Warning")
    ∷ ("TS.A", "Tsunami Watch")
    ∷ ("TS.Y", "Tsunami Advisory")
    ∷ ("BZ.W", "Blizzard Warning")
    ∷ ("BZ.A", "Blizzard Watch")
    ∷ ("IS.W", "Ice Storm Warning")
    ∷ ("WS.W", "Winter Storm Warning")
    ∷ ("WS.A", "Winter Storm Watch")
    ∷ ("WW.Y", "Winter Weather Advisory")
    ∷ ("LE.W", "Lake Effect Snow Warning")
    ∷ ("LE.A", "Lake Effect Snow Watch")
    ∷ ("LE.Y", "Lake Effect Snow Advisory")
    ∷ ("SQ.W", "Snow Squall Warning")
    ∷ ("IP.Y", "Sleet Advisory")
    ∷ ("HW.W", "High Wind Warning")
    ∷ ("HW.A", "High Wind Watch")
    ∷ ("WI.Y", "Wind Advisory")
    ∷ ("LW.Y", "Lake Wind Advisory")
    ∷ ("XH.W", "Extreme Heat Warning")
    ∷ ("XH.A", "Extreme Heat Watch")
    ∷ ("HT.Y", "Heat Advisory")
    ∷ ("FZ.W", "Freeze Warning")
    ∷ ("FZ.A", "Freeze Watch")
    ∷ ("FR.Y", "Frost Advisory")
    ∷ ("EC.W", "Extreme Cold Warning")
    ∷ ("EC.A", "Extreme Cold Watch")
    ∷ ("CW.Y", "Cold Weather Advisory")
    ∷ ("EH.W", "Excessive Heat Warning")
    ∷ ("EH.A", "Excessive Heat Watch")
    ∷ ("HZ.W", "Hard Freeze Warning")
    ∷ ("HZ.A", "Hard Freeze Watch")
    ∷ ("WC.W", "Wind Chill Warning")
    ∷ ("WC.A", "Wind Chill Watch")
    ∷ ("WC.Y", "Wind Chill Advisory")
    ∷ ("FW.W", "Red Flag Warning")
    ∷ ("FW.A", "Fire Weather Watch")
    ∷ ("FG.Y", "Dense Fog Advisory")
    ∷ ("ZF.Y", "Freezing Fog Advisory")
    ∷ ("SM.Y", "Dense Smoke Advisory")
    ∷ ("DU.W", "Blowing Dust Warning")
    ∷ ("DU.Y", "Blowing Dust Advisory")
    ∷ ("DS.W", "Dust Storm Warning")
    ∷ ("BS.Y", "Blowing Snow Advisory")
    ∷ ("AV.W", "Avalanche Warning")
    ∷ ("AV.A", "Avalanche Watch")
    ∷ ("AV.Y", "Avalanche Advisory")
    ∷ ("EQ.W", "Earthquake Warning")
    ∷ ("VO.W", "Volcano Warning")
    ∷ ("CD.W", "Civil Danger Warning")
    ∷ ("NU.W", "Nuclear Power Plant Warning")
    ∷ ("SP.W", "Shelter in Place Warning")
    ∷ ("RH.W", "Radiological Hazard Warning")
    ∷ ("SP.S", "Special Weather Statement")
    ∷ [])

pub phen_sig_label : Text → Option Text
phen_sig_label phen_sig = get (upper (strip phen_sig)) phen_sig_to_label

unfoldable pub lookup_same_code : Text → Text → Option Text
lookup_same_code phen sig = get (upper phen ++ codes "." ++ upper sig) phen_sig_to_same
