-- ===== src/Prelude/Match.antt =====
-- Go's regular expressions, read byte by byte: each step gives what is left of the text, or `none`.
-- A class is the text of its bytes.
use Prim.Native.String
use Prim.Native.String.{String}
use Prim.Native.Nat.{ℕ, zero, suc}
use mathlib.Core.Bool.{Bool, ◌&&◌, not}
use mathlib.Core.Option.{Option, none, some}
use tuppr.Prelude.Tests.{str_eq, ltb, if◌then◌else◌}
use tuppr.Prelude.Text.{after, before}

abbrev pub digits : String
digits = "0123456789"

-- Whether a text begins with a byte of a class.
abbrev pub begins_in : String → String → Bool
begins_in class s = not (str_eq s "") && ltb (String.find class (before s 1)) (String.len class)

-- `[class]*` on as many steps as there are bytes: what is left.
abbrev pub skip : ℕ → String → String → String
skip zero class s = s
skip (suc n) class s = let rest = skip n class (after s 1) in if begins_in class s then rest else s

-- `[class]+`: what is left, or `none`.
abbrev pub skip_some : String → String → Option String
skip_some class s = if begins_in class s then some (skip (String.len s) class s) else none

-- A literal byte.
abbrev pub expect : String → String → Option String
expect c s = if str_eq (before s 1) c then some (after s 1) else none

infixl 5 ◌>>=◌
abbrev pub ◌>>=◌ : Option String → (String → Option String) → Option String
none >>= f = none
some s >>= f = f s

-- `[^class]*` on as many steps as there are bytes.
abbrev pub skip_others : ℕ → String → String → String
skip_others zero class s = s
skip_others (suc n) class s =
    let rest = skip_others n class (after s 1) in
    if str_eq s "" then s else (if begins_in class s then s else rest)

-- `v[0-9]+\.[0-9]+\.[0-9]+`
abbrev pub skip_version : String → Option String
skip_version s = do
  a ← expect "v" s
  b ← skip_some digits a
  c ← expect "." b
  d ← skip_some digits c
  e ← expect "." d
  skip_some digits e
