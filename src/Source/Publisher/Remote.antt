-- ===== src/Source/Publisher/Remote.antt =====
-- Calls of GitHub by packages/adapters-source/src/github-checks.ts: `requestJson`, `requireOk` and the
-- installation token, with exceptions. `World` keeps the requests sent, the latest first.
use Prim.Native.Char.{code}
use Prim.Native.String.{slice, ◌++◌ as concat}
use verify_agent.Prelude.{
  ℕ, suc, ◌+◌, ◌/◌, ◌%◌, String, Bool, ◌||◌, List, ◌∷◌, Option, Result, ok, throw, if◌then◌else◌,
  leb, ltb, nat_eq,
}
use verify_agent.Prelude.Text.{is_alnum, is_blank, trim, decimal}
use verify_agent.Json.{Json, is_object}
use verify_agent.Errors.{Error, publication}

pub data Method : Type 0 where
  get_method post_method patch_method : Method

pub record Request : Type 0 where
  pub token : String
  pub method : Method
  pub url : String
  pub body : Option Json

-- The status, and the body where it parses.
pub record Response : Type 0 where
  pub status : ℕ
  pub data_ : Option Json

-- The remote side: `fetch`, and the injected installation resolver and token client. A failure is
-- its message.
pub record Client (R : Type 0) : Type 0 where
  pub fetch : Request → R → Result String Response × R
  pub resolve_installation_id : String → String → R → Result String ℕ × R
  pub create_installation_token : ℕ → R → Result String String × R

pub record World (R : Type 0) : Type 0 where
  pub remote : R
  pub sent : List Request

-- A call with exceptions: what was sent stays sent after a throw too.
abbrev pub Action : Type 0 → Type 0 → Type 0
Action W A = W → Result Error A × W

module _ {W : Type 0} where
  abbrev pub pure : {A : Type 0} → A → Action W A
  pure a w = (ok a, w)

  abbrev pub fail : {A : Type 0} → Error → Action W A
  fail e w = (throw e, w)

  abbrev pub lift : {A : Type 0} → Result Error A → Action W A
  lift r w = (r, w)

  abbrev pub fail_if : Bool → Error → Action W (Unit {0})
  fail_if c e w = (if c then throw e else ok tt, w)

  abbrev pub continue : {A B : Type 0} → (A → Action W B) → Result Error A × W → Result Error B × W
  continue f (ok a, w) = f a w
  continue f (throw e, w) = (throw e, w)

  infixl 5 ◌>>=◌ ◌>>◌
  unfoldable pub ◌>>=◌ : {A B : Type 0} → Action W A → (A → Action W B) → Action W B
  ◌>>=◌ m f w = continue f (m w)

  abbrev pub ◌>>◌ : {A B : Type 0} → Action W A → Action W B → Action W B
  m >> k = m >>= λ _. k

abbrev wrapped : {A : Type 0} → (String → Error) → Result String A → Result Error A
wrapped wrap (ok a) = ok a
wrapped wrap (throw message) = throw (wrap message)

module _ {R : Type 0} where
  -- A call of a client, whose failure becomes the error that the code makes of it.
  abbrev pub call : {A : Type 0} → (R → Result String A × R) → (String → Error) → Action (World R) A
  call f wrap w = let (r, next) = f w.remote in (wrapped wrap r, record w { remote = next })

  abbrev pub log : Request → Action (World R) (Unit {0})
  log q w = (ok tt, record w { sent = q ∷ w.sent })

-- `encodeURIComponent`: what is not unreserved becomes its UTF-8 bytes in hexadecimal.
abbrev hex_digit : ℕ → String
hex_digit d = slice "0123456789ABCDEF" d (suc d)

abbrev percent : ℕ → String
percent b = concat "%" (concat (hex_digit (b / 16)) (hex_digit (b % 16)))

unfoldable pub utf8_percent : ℕ → String
utf8_percent c =
    if ltb c 128
    then percent c
    else if ltb c 2048
    then concat (percent (192 + c / 64)) (percent (128 + c % 64))
    else if ltb c 65536
    then concat (percent (224 + c / 4096))
        (concat (percent (128 + (c / 64) % 64)) (percent (128 + c % 64)))
    else concat (percent (240 + c / 262144)) (
        concat (percent (128 + (c / 4096) % 64))
          (concat (percent (128 + (c / 64) % 64)) (percent (128 + c % 64))))

abbrev is_unreserved : ℕ → Bool
is_unreserved c =
    is_alnum c
    || nat_eq c b'-'
    || nat_eq c b'_'
    || nat_eq c b'.'
    || nat_eq c b'!'
    || nat_eq c b'~'
    || nat_eq c b'*'
    || nat_eq c 39
    || nat_eq c b'('
    || nat_eq c b')'

unfoldable pub encode_uri_component : String → String
unfolding utf8_percent
encode_uri_component String.[] = String.[]
encode_uri_component (String.◌∷◌ c s) =
    concat (if is_unreserved (code c) then String.◌∷◌ c String.[] else utf8_percent (code c))
      (encode_uri_component s)

abbrev pub action_error : String → String → Error
action_error action text = publication (concat "GitHub Check Run " (concat action text))

unfoldable pub require_ok : String → Response → Result Error (Option Json)
unfolding decimal
require_ok action response =
    let status = response.status in
    if nat_eq status 401 || nat_eq status 403
    then throw (action_error action " not authorized (installation token rejected)")
    else if nat_eq status 404
    then throw (action_error action " target not found")
    else if nat_eq status 429
    then throw (action_error action " rate limited (no retries attempted)")
    else if ltb status 200 || leb 300 status
    then throw (action_error action (concat " failed with status " (decimal status)))
    else if is_object response.data_
    then ok response.data_
    else throw (action_error action " returned an invalid response")

module _ {R : Type 0} (client : Client R) where
  unfoldable pub request_json : Request → Action (World R) Response
  request_json q =
      log q
      >> call (client.fetch q)
          (λ message. publication (concat "GitHub Check Run request failed: " message))

  unfoldable pub acquire_installation_token : String → String → Action (World R) String
  unfolding is_blank trim
  acquire_installation_token owner repository =
      call (client.resolve_installation_id owner repository)
        (λ _. publication "GitHub App installation lookup failed")
      >>= λ id.
          call (client.create_installation_token id)
            (λ _. publication "GitHub App installation token acquisition failed")
          >>= λ token.
              fail_if (is_blank token)
                (publication "GitHub App installation token acquisition failed")
              >> pure (trim token)
