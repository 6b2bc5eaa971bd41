-- ===== src/Detection/Javascript.antt =====
-- packages/adapters-lang/src/service.ts: the languages of a project, by the files of the project.
use verify_agent.Prelude.{
  String, Bool, false, ◌&&◌, ◌||◌, ◌++◌, map, Option, ◌≡◌, refl, includes, some_of, filter, arith,
  ◌==◌,
}
use verify_agent.Prelude.Sorting.{includes-unique_sorted}
use verify_agent.Json.{Json}
use verify_agent.Detection.{Observation, Context}
use verify_agent.Detection.Detectors.{when, language_observation}
use verify_agent.Detection.Observed.{
  some_of-append, some_of-when, some_of-filter, some_of-map, IsPlain, some_of-observations,
}
use verify_agent.Detection.Service.{
  has_signal, observations, names, signals, languages_of, value_text,
}

-- Whether a project has JavaScript at all, by its files.
abbrev pub has_javascript : (String → Option Json) → Context → Bool
has_javascript parse_json context =
    includes (names parse_json context) "typescript"
    || (context.exists "tsconfig.json" || context.exists "package.json")

module _ (parse_json : String → Option Json) (context : Context) where
  pub tsconfig-observations :
      some_of (has_signal "tsconfig-present") (observations parse_json context)
      ≡ context.exists "tsconfig.json"
  unfolding language_observation
  tsconfig-observations =
      let plain : IsPlain (has_signal "tsconfig-present") = record {
        configuration = λ file. refl;
        tool = λ name. refl;
        manifest = λ path. refl;
        workspace = λ path. refl;
        soroban = λ path. refl;
        lock = λ path. refl;
      } in
      ground (arith, some_of-observations parse_json context (has_signal "tsconfig-present") plain)

  -- The observations with one of the two language signals and the value `language`.
  abbrev speaks : String → Observation → Bool
  speaks language o =
      (has_signal "typescript-signal" o || has_signal "javascript-signal" o)
      && (value_text o.value == language)

  includes-languages :
      (language : String)
      → ("rust" == language) ≡ false
      → includes (languages_of (observations parse_json context)) language
        ≡ some_of (speaks language) (observations parse_json context)
  unfolding languages_of
  includes-languages language other =
      let os = observations parse_json context in
      let signalled : Observation → Bool =
        λ o. has_signal "typescript-signal" o || has_signal "javascript-signal" o in
      let spoken = map (λ o. value_text o.value) (filter signalled os) in
      let is_language : String → Bool = λ l. l == language in
      ground (
        arith,
        other,
        includes-unique_sorted language
            (spoken ++ when (some_of (has_signal "cargo-manifest-present") os) "rust"),
        some_of-append is_language spoken
            (when (some_of (has_signal "cargo-manifest-present") os) "rust"),
        some_of-when is_language (some_of (has_signal "cargo-manifest-present") os) "rust",
        some_of-map is_language (λ o. value_text o.value) (filter signalled os),
        some_of-filter (λ o. value_text o.value == language) signalled os,
      )

  speaks-IsPlain : (language : String) → IsPlain (speaks language)
  speaks-IsPlain language = record {
    configuration = λ file. refl;
    tool = λ name. refl;
    manifest = λ path. refl;
    workspace = λ path. refl;
    soroban = λ path. refl;
    lock = λ path. refl;
  }

  speaks-observations :
      (some_of (speaks "typescript") (observations parse_json context)
        || some_of (speaks "javascript") (observations parse_json context))
      ≡ has_javascript parse_json context
  unfolding language_observation names
  speaks-observations = ground (
    arith,
    some_of-observations parse_json context (speaks "typescript") (speaks-IsPlain "typescript"),
    some_of-observations parse_json context (speaks "javascript") (speaks-IsPlain "javascript"),
  )

  pub languages-has_javascript :
      (let languages = (signals parse_json context).languages in
        includes languages "typescript" || includes languages "javascript")
      ≡ has_javascript parse_json context
  unfolding signals
  languages-has_javascript = ground (
    arith,
    includes-languages "typescript" refl,
    includes-languages "javascript" refl,
    speaks-observations,
  )
