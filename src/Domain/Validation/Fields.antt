-- ===== src/Domain/Validation/Fields.antt =====
-- packages/domain/src/validation.ts: what is asked of one field of a record.
use Prim.Native.String.{◌++◌ as concat}
use verify_agent.Prelude.{
  ℕ, String, Bool, false, not, ◌&&◌, List, [], ◌∷◌, Option, none, some, Result, ok, ◌>>◌, ensure,
  if◌then◌else◌, is_empty, leb,
}
use verify_agent.Prelude.Text.{is_blank, is_identifier, is_hex_of, codes}
use verify_agent.Json.{Number, nat}
use verify_agent.Errors.{Error, domain_validation}
use verify_agent.Domain.Dates.{is_iso_date}
use verify_agent.Domain.Types.{Provenance}

abbrev pub Checked : Type 0
Checked = Result Error (Unit {0})

abbrev pub require : Bool → String → Checked
require test message = ensure test (domain_validation message)

-- Every element, in order; the first that throws ends the loop.
unfoldable pub check_each {ℓ} : {A : Type ℓ} → (A → Checked) → List A → Checked
check_each f [] = ok tt
check_each f (x ∷ xs) = f x >> check_each f xs

abbrev pub check_optional {ℓ} : {A : Type ℓ} → (A → Checked) → Option A → Checked
check_optional f none = ok tt
check_optional f (some x) = f x

unfoldable pub non_empty : String → String → Checked
non_empty value name = require (not (is_blank value)) (concat name " must be non-empty")

unfoldable pub identifier : String → String → Checked
unfolding non_empty
identifier value name =
    non_empty value name >> require (is_identifier value) (concat name " is not a valid identifier")

abbrev is_nat_at_least : ℕ → Number → Bool
is_nat_at_least minimum (nat n) = leb minimum n
is_nat_at_least minimum _ = false

unfoldable pub integer_at_least : Number → ℕ → String → Checked
integer_at_least value minimum name =
    require (is_nat_at_least minimum value)
      (concat name " must be an integer at or above the minimum")

unfoldable pub hash : String → String → Checked
hash value name =
    require (is_hex_of 64 value) (concat name " must be a 64-character hexadecimal hash")

unfoldable pub iso_date : String → String → Checked
iso_date value name =
    require (is_iso_date value) (concat name " must be an ISO date-time with timezone")

-- `!value.producer.type || !value.producer.name`
abbrev pub has_producer : Provenance → Bool
has_producer p = not (is_empty (codes p.type)) && not (is_empty (codes p.name))

-- An empty optional date is not tested.
abbrev pub optional_date : Option String → String → Checked
optional_date none name = ok tt
optional_date (some d) name = if is_empty (codes d) then ok tt else iso_date d name
