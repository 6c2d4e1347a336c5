-- ===== src/Webhook/Version.antt =====
-- The version format of internal/webhook/validation/validation.go: the two regular expressions.
-- `[0-9]+` takes all the digits there are, which a dot or the end must follow.
use Prim.Native.String
use tuppr.Prelude.{
  ℕ, zero, suc, String, Bool, true, false, ◌&&◌, Option, none, some, str_eq, ◌⧺◌, if◌then◌else◌,
}
use tuppr.Prelude.Match.{begins_in, skip_some, expect, skip_version}
use tuppr.Prelude.Text.{after, before}

abbrev letters : String
letters = "abcdefghijklmnopqrstuvwxyzABCDEFGHIJKLMNOPQRSTUVWXYZ"

-- `(-[a-zA-Z0-9\-\.]+)?$`
abbrev pub ends_version : String → Bool
ends_version s = if str_eq s "" then true else elim (expect "-" s) [
  | none ↦ false
  | some suffix ↦
      elim (skip_some "-.0123456789abcdefghijklmnopqrstuvwxyzABCDEFGHIJKLMNOPQRSTUVWXYZ" suffix) [
        | none ↦ false
        | some rest ↦ str_eq rest ""
      ]
]

-- `^v[0-9]+\.[0-9]+\.[0-9]+(-[a-zA-Z0-9\-\.]+)?$`
unfoldable pub is_version : String → Bool
is_version s = elim (skip_version s) [ none ↦ false | some rest ↦ ends_version rest ]

-- `-[a-zA-Z]`, anywhere.
pre_release_at : ℕ → String → Bool
pre_release_at zero s = false
pre_release_at (suc n) s =
    let later = pre_release_at n (after s 1) in
    if str_eq (before s 1) "-" && begins_in letters (after s 1) then true else later

unfoldable pub is_pre_release : String → Bool
unfolding pre_release_at
is_pre_release s = pre_release_at (String.len s) s

-- ValidateVersionFormat
unfoldable pub validate_version_format : String → Option String
unfolding is_version
validate_version_format version =
    if str_eq version ""
    then some "version cannot be empty"
    else (if is_version version
        then none
        else some ("version '" ⧺ version ⧺ "' invalid. Must be 'vX.Y.Z' or 'vX.Y.Z-suffix'"))
