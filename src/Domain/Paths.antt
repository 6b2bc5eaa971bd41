-- ===== src/Domain/Paths.antt =====
-- `normalizePath` of packages/domain/src/validation.ts, over code points.
pub mod Confined
use verify_agent.Prelude.{
  ℕ, Bool, true, false, ◌&&◌, ◌||◌, List, [], ◌∷◌, map, Result, ok, throw, ◌>>=◌, ◌>>◌, ensure,
  reject_if, nat_eq, if◌then◌else◌, every, some_of,
}
use verify_agent.Prelude.Text.{is_space, between}
use verify_agent.Errors.{Error, domain_validation}

-- `replaceAll("\\", "/")`
abbrev slashes : List ℕ → List ℕ
slashes = map (λ c. if nat_eq c 92 then b'/' else c)

-- `replace(/^\.\//, "")`
abbrev drop_dot_slash : List ℕ → List ℕ
drop_dot_slash [] = []
drop_dot_slash (c ∷ []) = c ∷ []
drop_dot_slash (c ∷ d ∷ cs) = if nat_eq c b'.' && nat_eq d b'/' then cs else c ∷ d ∷ cs

abbrev push_front : ℕ → List (List ℕ) → List (List ℕ)
push_front c [] = (c ∷ []) ∷ []
push_front c (p ∷ ps) = (c ∷ p) ∷ ps

-- `split("/")`
unfoldable pub split_slash : List ℕ → List (List ℕ)
split_slash [] = [] ∷ []
split_slash (c ∷ cs) = if nat_eq c b'/' then [] ∷ split_slash cs else push_front c (split_slash cs)

abbrev is_parent : List ℕ → Bool
is_parent (c ∷ d ∷ []) = nat_eq c b'.' && nat_eq d b'.'
is_parent _ = false

abbrev pub starts_with_slash : List ℕ → Bool
starts_with_slash [] = false
starts_with_slash (c ∷ cs) = nat_eq c b'/'

-- `/^[A-Za-z]:\//`
abbrev pub has_drive : List ℕ → Bool
has_drive (c ∷ d ∷ e ∷ cs) =
    (between b'A' b'Z' c || between b'a' b'z' c) && nat_eq d b':' && nat_eq e b'/'
has_drive _ = false

unfoldable pub normalize_path : List ℕ → Result Error (List ℕ)
unfolding split_slash is_space
normalize_path path = do
  let normalized = drop_dot_slash (slashes path)
  reject_if (every is_space normalized) (domain_validation "path must be non-empty")
  reject_if
      (starts_with_slash normalized
        || has_drive normalized
        || some_of is_parent (split_slash normalized))
      (domain_validation "path must be a normalized repository-relative path")
  ok normalized
