-- ===== src/Engine/Sandbox/Wire.antt =====
-- What the sandbox's Docker backend may rely on in a job identity.
use Prim.Native.String.{◌++◌ as concat}
use Prim.Native.Char.{code}
use Prim.Native.String.append.{nil, cons}
use mathlib.Core.Path.{subst}
use verify_agent.Prelude.{
  ℕ, ◌≤◌, String, true, ◌&&◌, ◌||◌, List, [], ◌∷◌, ◌++◌, ok, ◌≡◌, refl, arith, length, every,
  returns, ok-injective, Bool-cases, inl, inr, ap, ◌∙◌, is_empty, ltb, leb, reject_if,
}
use verify_agent.Prelude.Text.{codes, js_length, units, is_hex_of, is_hex}
use verify_agent.Engine.Sandbox.{to_sandbox_wire_job_id, is_wire_codes, is_wire_char}

-- An identity that the backend accepts.
abbrev pub IsWireSafe : String → Type 0
IsWireSafe id = (is_wire_codes (codes id) ≡ true) × (length (codes id) ≤ 128)

codes-append : (s t : String) → codes (concat s t) ≡ codes s ++ codes t
codes-append String.[] t = ap (λ r. codes r) (λ i. nil t i)
codes-append (String.◌∷◌ c s) t =
    ap (λ r. codes r) (λ i. cons c s t i) ∙ ap (λ r. code c ∷ r) (codes-append s t)

hex-wire : (cs : List ℕ) → every is_hex cs ≡ true → every is_wire_char cs ≡ true
hex-wire [] h = refl
hex-wire (c ∷ cs) h = ground (arith, hex-wire cs)

length-units : (cs : List ℕ) → length cs ≤ units cs
length-units [] = omega arith
length-units (c ∷ cs) = ground (arith, length-units cs)

hashed-IsWireSafe :
    (digest : String) → is_hex_of 64 digest ≡ true → IsWireSafe (concat "job-" digest)
unfolding is_hex_of
hashed-IsWireSafe digest h =
    let e = codes-append "job-" digest in
    let hex : every is_hex (codes digest) ≡ true = ground arith in
    let len : length (codes digest) ≡ 64 = ground arith in
    rw e (hex-wire (codes digest) hex, omega (arith, len))

-- An identity that reaches the sandbox is accepted by its backend: letters, digits, dots, dashes and
-- underscores, at most 128 of them, whatever the internal identity holds, where a digest is 64
-- hexadecimal digits.
pub to_sandbox_wire_job_id-IsWireSafe :
    (sha256_text : String → String) (id wire : String)
    → ((s : String) → is_hex_of 64 (sha256_text s) ≡ true)
    → to_sandbox_wire_job_id sha256_text id ≡ ok wire
    → IsWireSafe wire
unfolding to_sandbox_wire_job_id js_length
to_sandbox_wire_job_id-IsWireSafe sha256_text id wire hex h =
    returns (reject_if (is_empty (codes id) || ltb 256 (js_length id)) _) _ h λ _ _ h1.
      subst IsWireSafe (ok-injective h1)
        (elim (Bool-cases (leb (js_length id) 128 && is_wire_codes (codes id))) [
          | inl e ↦ rw e (ground arith, ground (arith, length-units (codes id)))
          | inr e ↦ rw e (hashed-IsWireSafe (sha256_text id) (hex id))
        ])
