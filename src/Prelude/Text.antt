-- ===== src/Prelude/Text.antt =====
-- The string tests of the program, over code points: `trim`, and its regular expressions.
use Prim.Native.Char.{code}
use Prim.Native.String.{String, slice, ◌++◌ as concat}
use Prim.Native.Nat.{ℕ, zero, suc, ◌+◌, ◌-◌, ◌/◌, ◌%◌}
use mathlib.Core.Option.{Option, none, some}
use mathlib.Core.Path.{◌≡◌, refl}
use mathlib.Core.Bool.{Bool, true, false, ◌&&◌, ◌||◌}
use mathlib.Core.List.{List, [], ◌∷◌}
use verify_agent.Prelude.Tests.{leb, ltb, nat_eq, is_some, if◌then◌else◌}
use verify_agent.Prelude.Lists.{every, is_empty, length}

-- The code points of a text. `String` has its own `[]` and `∷`.
abbrev pub codes : String → List ℕ
codes String.[] = []
codes (String.◌∷◌ c s) = code c ∷ codes s

abbrev pub between : ℕ → ℕ → ℕ → Bool
between lo hi c = leb lo c && leb c hi

-- `s.length`: a code point above the first plane counts twice.
abbrev pub units : List ℕ → ℕ
units [] = 0
units (c ∷ cs) = (if leb c 0xffff then 1 else 2) + units cs

unfoldable pub js_length : String → ℕ
js_length s = units (codes s)

-- What `String.prototype.trim` takes away: WhiteSpace and LineTerminator of ECMAScript.
unfoldable pub is_space : ℕ → Bool
is_space c =
    between 9 13 c
    || nat_eq c 32
    || nat_eq c 160
    || nat_eq c 0x1680
    || between 0x2000 0x200a c
    || nat_eq c 0x2028
    || nat_eq c 0x2029
    || nat_eq c 0x202f
    || nat_eq c 0x205f
    || nat_eq c 0x3000
    || nat_eq c 0xfeff

-- `value.trim().length === 0`
unfoldable pub is_blank : String → Bool
unfolding is_space
is_blank s = every is_space (codes s)

abbrev pub is_alnum : ℕ → Bool
is_alnum c = between b'A' b'Z' c || between b'a' b'z' c || between b'0' b'9' c

abbrev pub is_id_char : ℕ → Bool
is_id_char c = is_alnum c || nat_eq c b'.' || nat_eq c b'_' || nat_eq c b':' || nat_eq c b'-'

abbrev pub is_id_codes : List ℕ → Bool
is_id_codes [] = false
is_id_codes (c ∷ cs) = is_alnum c && every is_id_char cs

-- `/^[A-Za-z0-9][A-Za-z0-9._:-]*$/`
unfoldable pub is_identifier : String → Bool
is_identifier s = is_id_codes (codes s)

abbrev pub is_hex : ℕ → Bool
is_hex c = between b'A' b'F' c || between b'a' b'f' c || between b'0' b'9' c

-- `/^[A-Fa-f0-9]{n}$/`
unfoldable pub is_hex_of : ℕ → String → Bool
is_hex_of n s = nat_eq (length (codes s)) n && every is_hex (codes s)

-- A number in a template literal: its decimal digits. The number itself is enough fuel.
abbrev pub digit : ℕ → String
digit d = slice "0123456789" d (suc d)

unfoldable pub decimal_within : ℕ → ℕ → String
decimal_within zero n = digit (n % 10)
decimal_within (suc fuel) n =
    let higher = decimal_within fuel (n / 10) in
    if ltb n 10 then digit n else concat higher (digit (n % 10))

unfoldable pub decimal : ℕ → String
unfolding decimal_within
decimal n = decimal_within n n

decimal_120 : decimal 120 ≡ "120"
unfolding decimal
decimal_120 = refl

-- `trim`
unfoldable pub trim_start : String → String
unfolding is_space
trim_start String.[] = String.[]
trim_start (String.◌∷◌ c s) = if is_space (code c) then trim_start s else String.◌∷◌ c s

unfoldable pub trim_end : String → String
unfolding is_blank
trim_end String.[] = String.[]
trim_end (String.◌∷◌ c s) =
    if is_blank (String.◌∷◌ c s) then String.[] else String.◌∷◌ c (trim_end s)

unfoldable pub trim : String → String
unfolding trim_start trim_end
trim s = trim_end (trim_start s)

-- `toLowerCase`, on the ASCII letters
unfoldable pub lower : String → String
lower String.[] = String.[]
lower (String.◌∷◌ c s) =
    if between b'A' b'Z' (code c)
    then concat (slice "abcdefghijklmnopqrstuvwxyz" (code c - b'A') (suc (code c - b'A'))) (lower s)
    else String.◌∷◌ c (lower s)

-- `text.startsWith(prefix)`, with what follows it: `text.slice(prefix.length)`
unfoldable pub after_prefix : String → String → Option String
after_prefix String.[] s = some s
after_prefix (String.◌∷◌ p ps) String.[] = none
after_prefix (String.◌∷◌ p ps) (String.◌∷◌ c s) =
    if nat_eq (code p) (code c) then after_prefix ps s else none

-- `text.includes(part)`
unfoldable pub contains : String → String → Bool
unfolding after_prefix
contains part String.[] = is_empty (codes part)
contains part (String.◌∷◌ c s) = is_prefix (after_prefix part (String.◌∷◌ c s)) || contains part s
  where
    is_prefix : Option String → Bool
    is_prefix none = false
    is_prefix (some rest) = true

-- `text.startsWith(prefix)`
unfoldable pub starts_with : String → String → Bool
unfolding after_prefix
starts_with prefix s = is_some (after_prefix prefix s)

trimmed :
    (trim "  a b " ≡ "a b") × (lower "AbZ9" ≡ "abz9") × (after_prefix "sha" "sha256" ≡ some "256")
unfolding trim lower after_prefix
trimmed = (refl, refl, refl)
