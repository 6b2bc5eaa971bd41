-- ===== src/Domain/Dates.antt =====
-- The ISO date-time test of packages/domain/src/validation.ts and verification-queue.ts: the
-- regular expression, and `Date.parse` with the element ranges of ECMAScript's date-time format (a
-- fraction may have any length that the expression lets through).
use verify_agent.Prelude.{
  ℕ, ◌+◌, ◌*◌, ◌-◌, String, Bool, false, ◌&&◌, ◌||◌, List, [], ◌∷◌, Option, none, some, leb, nat_eq,
  if◌then◌else◌, is_empty,
}
use verify_agent.Prelude.Text.{codes, between}

abbrev is_digit : ℕ → Bool
is_digit = between b'0' b'9'

-- Takes one character for each test, in order.
abbrev strip : List (ℕ → Bool) → List ℕ → Option (List ℕ)
strip [] cs = some cs
strip (t ∷ ts) [] = none
strip (t ∷ ts) (c ∷ cs) = if t c then strip ts cs else none

-- `\d{4}-\d{2}-\d{2}T\d{2}:\d{2}:\d{2}`
abbrev date_time_shape : List (ℕ → Bool)
date_time_shape =
    is_digit
    ∷ is_digit
    ∷ is_digit
    ∷ is_digit
    ∷ nat_eq b'-'
    ∷ is_digit
    ∷ is_digit
    ∷ nat_eq b'-'
    ∷ is_digit
    ∷ is_digit
    ∷ nat_eq b'T'
    ∷ is_digit
    ∷ is_digit
    ∷ nat_eq b':'
    ∷ is_digit
    ∷ is_digit
    ∷ nat_eq b':'
    ∷ is_digit
    ∷ is_digit
    ∷ []

-- The digits at the front, counted, and what follows them.
abbrev pub skip_digits : List ℕ → ℕ × List ℕ
skip_digits [] = (0, [])
skip_digits (c ∷ cs) =
    if is_digit c then (let (n, rest) = skip_digits cs in (ℕ.suc n, rest)) else (0, c ∷ cs)

-- `(?:\.\d{1,9})?`
abbrev fraction : List ℕ → Option (List ℕ)
fraction [] = some []
fraction (c ∷ cs) =
    if nat_eq c b'.'
    then (let (n, rest) = skip_digits cs in if leb 1 n && leb n 9 then some rest else none)
    else some (c ∷ cs)

-- The two-digit number at a position.
abbrev two_at : ℕ → List ℕ → ℕ
two_at i [] = 0
two_at ℕ.zero (c ∷ []) = 0
two_at ℕ.zero (c ∷ d ∷ cs) = (c - b'0') * 10 + (d - b'0')
two_at (ℕ.suc i) (c ∷ cs) = two_at i cs

-- `(?:Z|[+-]\d{2}:\d{2})$`, with the ranges of the offset, which `Date.parse` tests
abbrev zone : List ℕ → Bool
zone [] = false
zone (c ∷ cs) =
    (nat_eq c b'Z' && is_empty cs)
    || ((nat_eq c b'+' || nat_eq c b'-')
        && ends (strip (is_digit ∷ is_digit ∷ nat_eq b':' ∷ is_digit ∷ is_digit ∷ []) cs)
        && leb (two_at 0 cs) 23
        && leb (two_at 3 cs) 59)
  where
    ends : Option (List ℕ) → Bool
    ends none = false
    ends (some rest) = is_empty rest

abbrev zone_after : Option (List ℕ) → Bool
zone_after none = false
zone_after (some cs) = zone cs

abbrev fraction_after : Option (List ℕ) → Bool
fraction_after none = false
fraction_after (some cs) = zone_after (fraction cs)

abbrev matches_iso_date : List ℕ → Bool
matches_iso_date cs = fraction_after (strip date_time_shape cs)

-- Month, day, hour, minute and second are legal; 24:00:00 is the end of a day.
abbrev date_parses : List ℕ → Bool
date_parses cs =
    between 1 12 (two_at 5 cs)
    && between 1 31 (two_at 8 cs)
    && ((leb (two_at 11 cs) 23 && leb (two_at 14 cs) 59 && leb (two_at 17 cs) 59)
        || (nat_eq (two_at 11 cs) 24 && nat_eq (two_at 14 cs) 0 && nat_eq (two_at 17 cs) 0))

-- `ISO_DATE_RE.test(text) && !Number.isNaN(Date.parse(text))`
unfoldable pub is_iso_date : String → Bool
is_iso_date s = matches_iso_date (codes s) && date_parses (codes s)
