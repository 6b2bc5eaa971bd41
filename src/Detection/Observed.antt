-- ===== src/Detection/Observed.antt =====
-- What a test of the observations of packages/adapters-lang/src/detectors.ts sees.
use verify_agent.Prelude.{
  String, Bool, true, false, ◌&&◌, ◌||◌, List, [], ◌∷◌, ◌++◌, map, Option, ◌≡◌, refl, includes,
  some_of, filter, flat_map, if◌then◌else◌, arith, or_else,
}
use verify_agent.Json.{Json}
use verify_agent.Detection.{
  Observation, observe, Context, text, flag, find_files, package_names, high, medium, low,
}
use verify_agent.Detection.Detectors.{
  when, package_data, detect_typescript, detect_rust, language_observation, configuration_files,
  package_tools, is_malformed, manifest_observations, package_file, has_workspace_from,
  names_soroban, soroban_file,
}
use verify_agent.Detection.Service.{observations}

module _ {A : Type 0} where
  pub some_of-append :
      (p : A → Bool) (xs ys : List A) → some_of p (xs ++ ys) ≡ (some_of p xs || some_of p ys)
  some_of-append p [] ys = refl
  some_of-append p (x ∷ xs) ys = ground (arith, some_of-append p xs ys)

  pub some_of-when : (p : A → Bool) (c : Bool) (x : A) → some_of p (when c x) ≡ (c && p x)
  some_of-when p true x = ground arith
  some_of-when p false x = refl

  pub some_of-if :
      (p : A → Bool) (c : Bool) (xs : List A)
      → some_of p (if c then xs else []) ≡ (c && some_of p xs)
  some_of-if p true xs = refl
  some_of-if p false xs = refl

  pub some_of-filter :
      (p q : A → Bool) (xs : List A) → some_of p (filter q xs) ≡ some_of (λ x. q x && p x) xs
  some_of-filter p q [] = refl
  some_of-filter p q (x ∷ xs) = ground (arith, some_of-filter p q xs)

module _ {A B : Type 0} where
  pub some_of-map :
      (p : B → Bool) (f : A → B) (xs : List A) → some_of p (map f xs) ≡ some_of (λ x. p (f x)) xs
  some_of-map p f [] = refl
  some_of-map p f (x ∷ xs) = ground (arith, some_of-map p f xs)

  -- A test that no element of what `f` gives passes.
  none_of-flat_map :
      (p : B → Bool) (f : A → List B) (xs : List A)
      → ((x : A) → some_of p (f x) ≡ false)
      → some_of p (flat_map f xs) ≡ false
  none_of-flat_map p f [] h = refl
  none_of-flat_map p f (x ∷ xs) h =
      ground (arith, some_of-append p (f x) (flat_map f xs), h x, none_of-flat_map p f xs h)

module _ {A : Type 0} (p : A → Bool) where
  some_of-parts :
      (a b c d e f g : List A)
      → some_of p f ≡ false
      → some_of p g ≡ false
      → some_of p (a ++ b ++ c ++ d ++ e ++ f ++ g)
        ≡ (some_of p a || (some_of p b || (some_of p c || (some_of p d || some_of p e))))
  some_of-parts a b c d e f g no_f no_g = ground (
    arith,
    some_of-append p (a ++ b ++ c ++ d ++ e ++ f) g,
    some_of-append p (a ++ b ++ c ++ d ++ e) f,
    some_of-append p (a ++ b ++ c ++ d) e,
    some_of-append p (a ++ b ++ c) d,
    some_of-append p (a ++ b) c,
    some_of-append p a b,
  )

-- A test that rejects what the search for files and tools adds.
pub record IsPlain (p : Observation → Bool) : Type 0 where
  pub configuration :
      (file : String)
      → p (observe "typescript" "configuration-present" (text file) (file ∷ []) medium) ≡ false
  pub tool :
      (name : String)
      → p (observe "typescript" "package-tool-present" (text name) package_file high) ≡ false
  pub manifest :
      (path : String)
      → p (observe "rust" "cargo-manifest-present" (text path) (path ∷ []) high) ≡ false
  pub workspace :
      (path : String)
      → p (observe "rust" "cargo-workspace-present" (flag true) (path ∷ []) high) ≡ false
  pub soroban :
      (path : String)
      → p (observe "rust" "soroban-signal" (text "soroban") (path ∷ []) high) ≡ false
  pub lock :
      (path : String)
      → p (observe "rust" "cargo-lock-present" (flag true) (path ∷ []) medium) ≡ false

module _ (parse_json : String → Option Json) (context : Context) (p : Observation → Bool)
    (plain : IsPlain p) where
  none_of-manifests : (path : String) → some_of p (manifest_observations context path) ≡ false
  unfolding manifest_observations
  none_of-manifests path = ground (
    arith,
    plain.manifest path,
    plain.workspace path,
    plain.soroban path,
    some_of-append p
        (when (has_workspace_from true (or_else (context.read_file path) ""))
          (observe "rust" "cargo-workspace-present" (flag true) (path ∷ []) high))
        (when
          (names_soroban (or_else (context.read_file path) "")
            || context.exists (soroban_file path))
          (observe "rust" "soroban-signal" (text "soroban") (path ∷ []) high)),
    some_of-when p (has_workspace_from true (or_else (context.read_file path) ""))
        (observe "rust" "cargo-workspace-present" (flag true) (path ∷ []) high),
    some_of-when p
        (names_soroban (or_else (context.read_file path) "") || context.exists (soroban_file path))
        (observe "rust" "soroban-signal" (text "soroban") (path ∷ []) high),
  )

  none_of-detect_rust : some_of p (detect_rust context) ≡ false
  unfolding detect_rust
  none_of-detect_rust = ground (
    arith,
    some_of-append p
        (flat_map (manifest_observations context) (find_files context ("Cargo.toml" ∷ [])))
        (flat_map (λ path. observe "rust" "cargo-lock-present" (flag true) (path ∷ []) medium ∷ [])
          (find_files context ("Cargo.lock" ∷ []))),
    none_of-flat_map p (manifest_observations context) (find_files context ("Cargo.toml" ∷ []))
        none_of-manifests,
    none_of-flat_map p
        (λ path. observe "rust" "cargo-lock-present" (flag true) (path ∷ []) medium ∷ [])
        (find_files context ("Cargo.lock" ∷ [])) (λ path. ground (arith, plain.lock path)),
  )

  -- What such a test sees of all observations.
  pub some_of-observations : some_of p (observations parse_json context) ≡ (
      (context.exists "tsconfig.json"
        && p (observe "typescript" "tsconfig-present" (flag true) ("tsconfig.json" ∷ []) high))
      || ((context.exists "jsconfig.json"
            && p (observe "javascript" "jsconfig-present" (flag true) ("jsconfig.json" ∷ []) high))
          || ((context.exists "package.json"
                && p (observe "javascript" "package-json-present" (flag true) package_file medium))
              || ((is_malformed parse_json context
                    && p (
                        observe "javascript" "package-json-malformed" (flag true) package_file low))
                  || some_of p (language_observation parse_json context)))))
  unfolding observations detect_typescript
  some_of-observations =
      let no_file =
        none_of-flat_map p
          (λ file. observe "typescript" "configuration-present" (text file) (file ∷ []) medium ∷ [])
          (find_files context configuration_files)
          (λ file. ground (arith, plain.configuration file)) in
      let no_tool =
        none_of-flat_map p
          (λ name.
            when (includes (package_names (package_data parse_json context)) name)
              (observe "typescript" "package-tool-present" (text name) package_file high))
          package_tools
          (λ name. ground (
            arith,
            plain.tool name,
            some_of-when p (includes (package_names (package_data parse_json context)) name)
                (observe "typescript" "package-tool-present" (text name) package_file high),
          )) in
      ground (
        arith,
        some_of-append p (detect_typescript parse_json context) (detect_rust context),
        none_of-detect_rust,
        some_of-parts p
            (when (context.exists "tsconfig.json")
              (observe "typescript" "tsconfig-present" (flag true) ("tsconfig.json" ∷ []) high))
            (when (context.exists "jsconfig.json")
              (observe "javascript" "jsconfig-present" (flag true) ("jsconfig.json" ∷ []) high))
            (when (context.exists "package.json")
              (observe "javascript" "package-json-present" (flag true) package_file medium))
            (when (is_malformed parse_json context)
              (observe "javascript" "package-json-malformed" (flag true) package_file low))
            (language_observation parse_json context) _ _ no_file no_tool,
        some_of-when p (context.exists "tsconfig.json")
            (observe "typescript" "tsconfig-present" (flag true) ("tsconfig.json" ∷ []) high),
        some_of-when p (context.exists "jsconfig.json")
            (observe "javascript" "jsconfig-present" (flag true) ("jsconfig.json" ∷ []) high),
        some_of-when p (context.exists "package.json")
            (observe "javascript" "package-json-present" (flag true) package_file medium),
        some_of-when p (is_malformed parse_json context)
            (observe "javascript" "package-json-malformed" (flag true) package_file low),
      )
