-- ===== src/Prelude/Text.antt =====
-- Go's functions on strings that the program calls. Positions are in bytes.
use Prim.Native.Nat.{ℕ, zero, suc, ◌+◌, ◌-◌, ◌*◌, ◌^◌}
use Prim.Native.String.{String}
use Prim.Native.String
use mathlib.Core.Bool.{Bool, ◌&&◌}
use mathlib.Core.Option.{Option, none, some}
use tuppr.Prelude.Tests.{str_eq, ltb, leb, if◌then◌else◌}

abbrev pub after : String → ℕ → String
after s n = String.slice s n (String.len s)

abbrev pub before : String → ℕ → String
before s n = String.slice s 0 n

-- strings.HasSuffix
abbrev pub has_suffix : String → String → Bool
has_suffix s t =
    leb (String.len t) (String.len s) && str_eq (after s (String.len s - String.len t)) t

-- strings.CutSuffix; `none` is `ok == false`.
abbrev pub cut_suffix : String → String → Option String
cut_suffix s t = if has_suffix s t then some (before s (String.len s - String.len t)) else none

-- strings.HasPrefix
abbrev pub has_prefix : String → String → Bool
has_prefix s t = str_eq (before s (String.len t)) t

-- strings.TrimPrefix
abbrev pub trim_prefix : String → String → String
trim_prefix s t = if str_eq (before s (String.len t)) t then after s (String.len t) else s

-- strings.Cut; `none` is `found == false`.
abbrev pub cut : String → String → Option (String × String)
cut s sep =
    let i = String.find s sep in
    if ltb i (String.len s) then some (before s i, after s (i + String.len sep)) else none

-- strings.TrimRight with one character, on as many steps as there are bytes.
abbrev pub trim_right : ℕ → String → String → String
trim_right zero s t = s
trim_right (suc n) s t = elim (cut_suffix s t) [ none ↦ s | some rest ↦ trim_right n rest t ]

-- Go's `int`, as strconv.Atoi reads it: a number, or minus one more than a number.
pub data ℤ : Type 0 where
  pos : ℕ → ℤ
  negsuc : ℕ → ℤ

abbrev negated : ℕ → ℤ
negated zero = ℤ.pos 0
negated (suc n) = ℤ.negsuc n

-- The digits of a text after `acc`, on as many steps as it has bytes.
abbrev pub read_digits : ℕ → ℕ → String → Option ℕ
read_digits zero acc s = some acc
read_digits (suc n) acc s =
    let c = before s 1 in
    let digit = String.find "0123456789" c in
    let rest = read_digits n (acc * 10 + digit) (after s 1) in
    if str_eq c "" then none else (if ltb digit 10 then rest else none)

abbrev pub read_number : String → Option ℕ
read_number s = if str_eq s "" then none else read_digits (String.len s) 0 s

-- strconv.Atoi on a 64-bit machine; `none` is its error.
abbrev pub atoi : String → Option ℤ
atoi s =
    if str_eq (before s 1) "-"
    then elim (read_number (after s 1)) [
      | none ↦ none
      | some n ↦ if leb n (2 ^ 63) then some (negated n) else none
    ]
    else elim (read_number (if str_eq (before s 1) "+" then after s 1 else s)) [
      | none ↦ none
      | some n ↦ if ltb n (2 ^ 63) then some (ℤ.pos n) else none
    ]
