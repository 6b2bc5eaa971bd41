-- ===== src/Source/Freshness.antt =====
-- packages/adapters-source/src/github-checks.ts: the freshness marker of a published result, and the
-- order of results by it.
mod Digits
mod Parts
pub mod RoundTrip
pub mod Order
use Prim.Native.Char.{code}
use Prim.Native.String.{◌++◌ as concat}
use verify_agent.Prelude.{
  ℕ, ◌+◌, ◌*◌, ◌-◌, String, Bool, true, false, not, ◌&&◌, ◌||◌, List, [], ◌∷◌, Option, none, some,
  if◌then◌else◌, ◌==◌, leb, ltb, nat_eq, every, length, is_some,
}
use verify_agent.Prelude.Text.{codes, between, is_alnum, decimal, js_length}
use verify_agent.Prelude.Sorting.{str_le}
use verify_agent.Json.{Json, Number, nat, negative, non_integer, as_string}

pub record Freshness : Type 0 where
  pub created_at_ms : ℕ
  pub content_hash : String

abbrev pub is_hash_char : ℕ → Bool
is_hash_char c = is_alnum c || nat_eq c b'.' || nat_eq c b'_' || nat_eq c b'-'

-- `/^[A-Za-z0-9._-]{1,256}$/`
unfoldable pub is_marker_hash : String → Bool
is_marker_hash s = between 1 256 (length (codes s)) && every is_hash_char (codes s)

-- `Number.MAX_SAFE_INTEGER`
abbrev pub max_safe_integer : ℕ
max_safe_integer = 9007199254740991

-- The guards of `formatVerificationFreshnessMarker`: what of an ordering a marker can represent.
unfoldable pub representable : Number → String → Option Freshness
unfolding is_marker_hash
representable (nat n) hash =
    if leb n max_safe_integer && is_marker_hash hash
    then some (record { created_at_ms = n; content_hash = hash })
    else none
representable (negative n) hash = none
representable (non_integer s) hash = none

unfoldable pub marker_text : Freshness → String
unfolding decimal
marker_text f = concat "verifyagent" (
    concat ":"
      (concat "v1" (concat ":" (concat (decimal f.created_at_ms) (concat ":" f.content_hash)))))

abbrev add_char : String → List String → List String
add_char c [] = c ∷ []
add_char c (w ∷ ws) = concat c w ∷ ws

-- `value.split(":")`
unfoldable pub split_colons : String → List String
split_colons String.[] = String.[] ∷ []
split_colons (String.◌∷◌ c s) =
    let rest = split_colons s in
    if nat_eq (code c) b':' then String.[] ∷ rest else add_char (String.◌∷◌ c String.[]) rest

-- `/^\d+$/`
unfoldable pub is_digits : String → Bool
is_digits s = leb 1 (length (codes s)) && every (between b'0' b'9') (codes s)

-- `Number(text)` of digits. A value beyond the safe integers is rounded in the source; it stays
-- beyond them.
unfoldable pub value_of : ℕ → List ℕ → ℕ
value_of n [] = n
value_of n (c ∷ cs) = value_of (n * 10 + (c - b'0')) cs

unfoldable pub parse_parts : List String → Option Freshness
unfolding is_digits value_of is_marker_hash
parse_parts (prefix ∷ version ∷ ms ∷ hash ∷ []) =
    if prefix == "verifyagent"
      && version == "v1"
      && is_digits ms
      && leb (value_of 0 (codes ms)) max_safe_integer
      && is_marker_hash hash
    then some (record { created_at_ms = value_of 0 (codes ms); content_hash = hash })
    else none
parse_parts _ = none

unfoldable pub parse_text : Option String → Option Freshness
unfolding parse_parts split_colons js_length
parse_text none = none
parse_text (some text) =
    if between 1 512 (js_length text) then parse_parts (split_colons text) else none

-- `parseVerificationFreshnessMarker`
unfoldable pub parse_marker : Option Json → Option Freshness
unfolding parse_text
parse_marker value = parse_text (as_string value)

pub data Comparison : Type 0 where
  older same newer : Comparison

-- `compareVerificationFreshness`
unfoldable pub compare_freshness : Freshness → Freshness → Comparison
unfolding str_le
compare_freshness incoming known =
    if nat_eq incoming.created_at_ms known.created_at_ms
    then if incoming.content_hash == known.content_hash
      then same
      else if str_le known.content_hash incoming.content_hash
      then newer
      else older
    else if ltb incoming.created_at_ms known.created_at_ms
    then older
    else newer
