-- ===== src/Auth/Routes.antt =====
-- Which paths a client's route prefixes open.
use seasonal_weather.Prelude.{
  true, false, ◌||◌, List, [], ◌∷◌, ◌++◌, ◌≡◌, ◌⊎◌, inl, inr, refl, arith, Text, codes, text_eq,
  text_eq_iff, text_in, text_eq_refl, starts_with, starts_with-split, Bool-cases,
}
use seasonal_weather.Auth.Policy.{route_is_allowed}

-- a path is a prefix, or lies below it after a slash; the root is a prefix of every path
abbrev pub Opens : Text → Text → Type 0
Opens prefix path =
    (prefix ≡ codes "/")
    ⊎ ((path ≡ prefix) ⊎ ((rest : Text) × (path ≡ (prefix ++ codes "/") ++ rest)))

one_prefix :
    (prefix path : Text)
    → (text_eq prefix (codes "/") || text_eq path prefix || starts_with path (prefix ++ codes "/"))
      ≡ true
    → Opens prefix path
one_prefix prefix path h = elim (Bool-cases (text_eq prefix (codes "/"))) [
  | inl root ↦ inl ((text_eq_iff prefix (codes "/")).0 root)
  | inr other ↦ elim (Bool-cases (text_eq path prefix)) [
    | inl same ↦ inr (inl ((text_eq_iff path prefix).0 same))
    | inr longer ↦
        inr (inr (starts_with-split path (prefix ++ codes "/") (ground (arith, other, longer))))
  ]
]

-- Where routes are restricted, an allowed path has a prefix in the list that opens it: the root, the
-- path itself, or the path up to a slash. So a prefix opens no sibling that merely begins like it.
pub route_is_allowed-Opens :
    (path : Text) (prefixes : List Text)
    → route_is_allowed path prefixes false ≡ true
    → (prefix : Text) × (text_in prefix prefixes ≡ true) × Opens prefix path
unfolding route_is_allowed text_in
route_is_allowed-Opens path [] h = cc
route_is_allowed-Opens path (p ∷ prefixes) h =
    elim (Bool-cases
      (text_eq p (codes "/") || text_eq path p || starts_with path (p ++ codes "/"))) [
        | inl here ↦ (p, rw (text_eq_refl p) refl, one_prefix p path here)
        | inr there ↦
            let (prefix, listed, opens) =
              route_is_allowed-Opens path prefixes (ground (arith, there)) in
            (prefix, ground (arith, listed), opens)
      ]
