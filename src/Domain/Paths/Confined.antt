-- ===== src/Domain/Paths/Confined.antt =====
-- Where a path that `normalizePath` returns leads.
use verify_agent.Prelude.{
  ℕ, suc, ◌-◌, Bool, true, false, List, [], ◌∷◌, Option, none, some, ok, ◌≡◌, refl, arith, nat_eq,
  if◌then◌else◌, some_of, is_some, ap, sym, ◌∙◌, ◌||◌,
}
use verify_agent.Prelude.Text.{between}
use verify_agent.Domain.Paths.{
  slashes, drop_dot_slash, split_slash, is_parent, starts_with_slash, has_drive, normalize_path,
}

-- The depth that a file system reaches from a root by the parts of a path, or nothing where a step
-- leaves the root. "" and "." stay.
abbrev is_stay : List ℕ → Bool
is_stay [] = true
is_stay (c ∷ []) = nat_eq c b'.'
is_stay _ = false

pub walk : ℕ → List (List ℕ) → Option ℕ
walk depth [] = some depth
walk depth (p ∷ ps) =
    let up = walk (depth - 1) ps in
    let down = walk (if is_stay p then depth else suc depth) ps in
    if is_parent p then (if nat_eq depth 0 then none else up) else down

walk-total :
    (depth : ℕ) (ps : List (List ℕ)) → some_of is_parent ps ≡ false → is_some (walk depth ps) ≡ true
unfolding walk
walk-total depth [] h = refl
walk-total depth (p ∷ ps) h = ground (arith, walk-total (if is_stay p then depth else suc depth) ps)

no_backslash : (cs : List ℕ) → some_of (λ c. nat_eq c 92) (slashes cs) ≡ false
no_backslash [] = refl
no_backslash (c ∷ cs) = ground (arith, no_backslash cs)

no_backslash-drop :
    (cs : List ℕ)
    → some_of (λ c. nat_eq c 92) cs ≡ false
    → some_of (λ c. nat_eq c 92) (drop_dot_slash cs) ≡ false
no_backslash-drop [] h = refl
no_backslash-drop (c ∷ []) h = h
no_backslash-drop (c ∷ d ∷ cs) h = ground arith

no_drive :
    (cs result : List ℕ)
    → has_drive cs ≡ false
    → cs ≡ result
    → (c : ℕ) (rest : List ℕ) → result ≡ c ∷ b':' ∷ b'/' ∷ rest
    → (between b'A' b'Z' c || between b'a' b'z' c) ≡ false
no_drive cs result h same c rest e =
    let f : has_drive (c ∷ b':' ∷ b'/' ∷ rest) ≡ false = ap has_drive (sym (same ∙ e)) ∙ h in
    ground arith

-- A path that is returned has no backslash, begins neither with a slash nor with the root of a drive,
-- a letter before ":/", and from any directory its parts never step above it.
pub normalize_path-confined :
    (path result : List ℕ) (depth : ℕ)
    → normalize_path path ≡ ok result
    → (some_of (λ c. nat_eq c 92) result ≡ false)
      × (starts_with_slash result ≡ false)
      × ((c : ℕ) (rest : List ℕ)
          → result ≡ c ∷ b':' ∷ b'/' ∷ rest
          → (between b'A' b'Z' c || between b'a' b'z' c) ≡ false)
      × (is_some (walk depth (split_slash result)) ≡ true)
unfolding normalize_path
normalize_path-confined path result depth h =
    let slashed = no_backslash-drop (slashes path) (no_backslash path) in
    let walked = walk-total depth (split_slash (drop_dot_slash (slashes path))) in
    let same : drop_dot_slash (slashes path) ≡ result = ground arith in
    let driven : has_drive (drop_dot_slash (slashes path)) ≡ false = ground arith in
    (
      ground (arith, slashed),
      ground arith,
      no_drive (drop_dot_slash (slashes path)) result driven same,
      ground (arith, walked),
    )
