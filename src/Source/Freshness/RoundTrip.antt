-- ===== src/Source/Freshness/RoundTrip.antt =====
-- Reading a freshness marker back.
use Prim.Native.String.{◌++◌ as concat}
use mathlib.Core.Logic.{◌↔◌}
use verify_agent.Prelude.{
  ℕ, ◌+◌, ◌≤◌, String, true, List, [], ◌∷◌, Option, none, some, ==_refl, every, length, ◌≡◌, refl,
  ap, ◌∙◌, arith, Bool-cases, inl, inr,
}
use verify_agent.Prelude.Text.{codes, between, decimal, js_length, units}
use verify_agent.Json.{Json, nat, str, as_string}
use verify_agent.Source.Freshness.{
  is_hash_char, Freshness, is_marker_hash, max_safe_integer, representable, marker_text,
  split_colons, is_digits, value_of, parse_parts, parse_text, parse_marker,
}
use verify_agent.Source.Freshness.Digits.{IsDecimal-within}
use verify_agent.Source.Freshness.Parts.{
  IsPlain, split_colons-plain, split_colons-concat, plain_of, units_of, hash_is_plain,
  digit_is_plain, units-concat,
}

representable-some :
    (n : ℕ) (hash : String) (f : Freshness)
    → representable (nat n) hash ≡ some f
    → (f.created_at_ms ≡ n)
      × (f.content_hash ≡ hash)
      × (n ≤ max_safe_integer)
      × (1 ≤ length (codes hash))
      × (length (codes hash) ≤ 256)
      × (every is_hash_char (codes hash) ≡ true)
      × (is_marker_hash hash ≡ true)
unfolding representable is_marker_hash
representable-some n hash f h = (
  ground arith,
  ground arith,
  ground arith,
  ground arith,
  ground arith,
  ground arith,
  ground arith,
)

-- What the marker is split into.
marker_parts :
    (f : Freshness)
    → IsPlain (decimal f.created_at_ms)
    → IsPlain f.content_hash
    → split_colons (marker_text f)
      ≡ "verifyagent" ∷ "v1" ∷ decimal f.created_at_ms ∷ f.content_hash ∷ []
unfolding marker_text
marker_parts f digits hash =
    split_colons-concat "verifyagent" _ refl
    ∙ ap (λ ws. "verifyagent" ∷ ws)
        (split_colons-concat "v1" _ refl
          ∙ ap (λ ws. "v1" ∷ ws)
              (split_colons-concat (decimal f.created_at_ms) f.content_hash digits
                ∙ ap (λ ws. decimal f.created_at_ms ∷ ws) (split_colons-plain f.content_hash hash)))

marker_length :
    (f : Freshness)
    → units (codes (marker_text f))
      ≡ 16 + units (codes (decimal f.created_at_ms)) + units (codes f.content_hash)
unfolding marker_text
marker_length f =
    let a = units-concat "verifyagent" (
      concat ":" (
        concat "v1" (concat ":" (concat (decimal f.created_at_ms) (concat ":" f.content_hash))))) in
    let b =
      units-concat ":"
        (concat "v1" (concat ":" (concat (decimal f.created_at_ms) (concat ":" f.content_hash)))) in
    let c =
      units-concat "v1"
        (concat ":" (concat (decimal f.created_at_ms) (concat ":" f.content_hash))) in
    let d = units-concat ":" (concat (decimal f.created_at_ms) (concat ":" f.content_hash)) in
    let e = units-concat (decimal f.created_at_ms) (concat ":" f.content_hash) in
    let g = units-concat ":" f.content_hash in omega arith

parse_parts-some :
    (parts : List String) (f : Freshness)
    → parse_parts parts ≡ some f
    → representable (nat f.created_at_ms) f.content_hash ≡ some f
unfolding parse_parts representable
parse_parts-some [] f h = absurd (ground arith)
parse_parts-some (a ∷ []) f h = absurd (ground arith)
parse_parts-some (a ∷ b ∷ []) f h = absurd (ground arith)
parse_parts-some (a ∷ b ∷ c ∷ []) f h = absurd (ground arith)
parse_parts-some (a ∷ b ∷ c ∷ d ∷ []) f h = ground arith
parse_parts-some (a ∷ b ∷ c ∷ d ∷ e ∷ rest) f h = absurd (ground arith)

parse_text-some :
    (text : Option String) (f : Freshness)
    → parse_text text ≡ some f
    → representable (nat f.created_at_ms) f.content_hash ≡ some f
unfolding parse_text
parse_text-some none f h = absurd (ground arith)
parse_text-some (some text) f h = elim (Bool-cases (between 1 512 (js_length text))) [
  | inl e ↦ parse_parts-some (split_colons text) f (ground arith)
  | inr e ↦ absurd (ground arith)
]

parsed :
    (f : Freshness) (text : String)
    → value_of 0 (codes text) ≡ f.created_at_ms
    → every (between b'0' b'9') (codes text) ≡ true
    → 1 ≤ length (codes text)
    → f.created_at_ms ≤ max_safe_integer
    → is_marker_hash f.content_hash ≡ true
    → parse_parts ("verifyagent" ∷ "v1" ∷ text ∷ f.content_hash ∷ []) ≡ some f
unfolding parse_parts is_digits
parsed f text value digits one small hash = ground (arith, ==_refl "verifyagent", ==_refl "v1")

-- What is read from a check run is an ordering that can be written.
parse_marker-representable :
    (value : Option Json) (f : Freshness)
    → parse_marker value ≡ some f
    → representable (nat f.created_at_ms) f.content_hash ≡ some f
unfolding parse_marker
parse_marker-representable value f h = parse_text-some (as_string value) f h

pub written_marker :
    (f : Freshness)
    → representable (nat f.created_at_ms) f.content_hash ≡ some f
    → parse_marker (some (str (marker_text f))) ≡ some f
unfolding parse_marker parse_text js_length decimal
written_marker f h =
    let (_, _, small, one, few, chars, hash) =
      representable-some f.created_at_ms f.content_hash f h in
    let (value, digits, some_digit, short) =
      IsDecimal-within f.created_at_ms 15 f.created_at_ms (omega arith) in
    let text = decimal f.created_at_ms in
    let brief : length (codes text) ≤ 16 = short (omega arith) in
    let size = marker_length f in
    let digit_units =
      units_of (between b'0' b'9') (codes text) (λ c k. (digit_is_plain c k).1) digits in
    let hash_units =
      units_of is_hash_char (codes f.content_hash) (λ c k. (hash_is_plain c k).1) chars in
    let fits : between 1 512 (units (codes (marker_text f))) ≡ true = ground arith in
    let parts =
      marker_parts f
        (plain_of (between b'0' b'9') (codes text) (λ c k. (digit_is_plain c k).0) digits)
        (plain_of is_hash_char (codes f.content_hash) (λ c k. (hash_is_plain c k).0) chars) in
    rw (fits, parts) (parsed f text value digits some_digit small hash)

-- The marker of an ordering is read back as that ordering exactly when the ordering can be written.
pub parse_marker-marker_text :
    (f : Freshness)
    → (representable (nat f.created_at_ms) f.content_hash ≡ some f)
      ↔ (parse_marker (some (str (marker_text f))) ≡ some f)
parse_marker-marker_text f =
    (written_marker f, parse_marker-representable (some (str (marker_text f))) f)
