-- ===== src/Source/Publisher/Publishing.antt =====
-- packages/adapters-source/src/github-checks.ts: `publishVerificationResult`. Publications under one
-- key run one after another (`runSerialized`), so a publication is a function of the publisher's state.
use verify_agent.Prelude.{
  ℕ, zero, suc, String, Bool, true, false, Option, none, some, Result, ok, throw, if◌then◌else◌,
  leb, is_some,
}
use verify_agent.JsMap.{JsMap, get, put, delete, size, first_key}
use verify_agent.Json.{Number}
use verify_agent.Errors.{Error, publication, stale_result}
use verify_agent.Source.Rendering.{Conclusion, CheckRepository}
use verify_agent.Source.Freshness.{
  Freshness, Comparison, older, same, newer, compare_freshness, parse_marker,
}
use verify_agent.Source.Publisher.{Config, Input, Prepared, prepare}
use verify_agent.Source.Publisher.Remote.{
  Client, World, Action, pure, fail, fail_if, ◌>>=◌, ◌>>◌, acquire_installation_token,
}
use verify_agent.Source.Publisher.Checks.{
  FoundRun, create_check_run, update_check_run, find_existing_check_run,
}

pub record Publication : Type 0 where
  pub check_run_id : Number
  pub head_sha : String
  pub conclusion : Conclusion
  pub created : Bool

abbrev pub is_older : Comparison → Bool
is_older older = true
is_older same = false
is_older newer = false

abbrev pub stale : Error
stale = stale_result "stale verification result cannot overwrite a newer result"

-- Whether a freshness is known that the incoming one is older than.
unfoldable pub is_stale : Freshness → Option Freshness → Bool
unfolding compare_freshness
is_stale incoming none = false
is_stale incoming (some known) = is_older (compare_freshness incoming known)

-- `while (latestByKey.size >= maxFreshnessEntries)`, on fuel
unfoldable pub make_room : ℕ → ℕ → JsMap Freshness → JsMap Freshness
unfolding delete
make_room zero most m = m
make_room (suc fuel) most m =
    let rest = make_room fuel most (evicted (first_key m)) in if leb most (size m) then rest else m
  where
    evicted : Option String → JsMap Freshness
    evicted none = m
    evicted (some oldest) = delete oldest m

-- The update of `latestByKey`. The size of the map is enough fuel.
unfoldable pub remember : ℕ → String → Freshness → JsMap Freshness → JsMap Freshness
unfolding get put delete make_room
remember most key f m =
    put key f (if is_some (get key m) then delete key m else make_room (size m) most m)

abbrev published : Prepared → Bool → Number → Publication
published p created id = record {
  check_run_id = id;
  head_sha = p.head_sha;
  conclusion = p.conclusion;
  created = created;
}

abbrev pub unrecognized : Error
unrecognized =
    publication
      "existing GitHub Check Run has missing or unrecognized freshness metadata; refusing to overwrite"

-- A failed publication is not remembered.
unfoldable pub remember_published {ℓ} :
    {W : Type ℓ}
    → Config
    → Prepared
    → JsMap Freshness
    → Result Error Publication × W
    → Result Error Publication × JsMap Freshness × W
unfolding remember
remember_published config p latest (ok done, w) =
    (ok done, remember config.max_freshness_entries p.key p.freshness latest, w)
remember_published config p latest (throw e, w) = (throw e, latest, w)

module _ {R : Type 0} (client : Client R) (above : Number → Number → Bool) (config : Config) where
  unfoldable pub create_new : String → CheckRepository → Prepared → Action (World R) Publication
  unfolding create_check_run
  create_new token repository p =
      create_check_run client config token repository p >>= λ id. pure (published p true id)

  -- A run that was removed meanwhile is created anew.
  unfoldable pub after_update :
      String → CheckRepository → Prepared → Option Number → Action (World R) Publication
  unfolding create_new
  after_update token repository p (some id) = pure (published p false id)
  after_update token repository p none = create_new token repository p

  unfoldable pub overwrite :
      String
      → CheckRepository
      → Prepared
      → FoundRun
      → Option Freshness
      → Action (World R) Publication
  unfolding is_stale update_check_run after_update
  overwrite token repository p run none = fail unrecognized
  overwrite token repository p run (some remote) =
      fail_if (is_stale p.freshness (some remote)) stale
      >> update_check_run client config token repository run.id p
      >>= after_update token repository p

  unfoldable pub create_or_update :
      String → CheckRepository → Prepared → Option FoundRun → Action (World R) Publication
  unfolding create_new overwrite parse_marker
  create_or_update token repository p none = create_new token repository p
  create_or_update token repository p (some run) =
      overwrite token repository p run (parse_marker run.external_id)

  -- The serialized work, up to the update of `latestByKey`.
  unfoldable pub publish_prepared :
      CheckRepository → Prepared → Option Freshness → Action (World R) Publication
  unfolding is_stale acquire_installation_token find_existing_check_run create_or_update
  publish_prepared repository p remembered =
      fail_if (is_stale p.freshness remembered) stale
      >> acquire_installation_token client repository.owner repository.name
      >>= λ token.
          find_existing_check_run client above config token repository p.head_sha
          >>= create_or_update token repository p

  unfoldable pub run_prepared :
      Input
      → JsMap Freshness
      → World R
      → Result Error Prepared
      → Result Error Publication × JsMap Freshness × World R
  unfolding get publish_prepared remember_published
  run_prepared input latest w (throw e) = (throw e, latest, w)
  run_prepared input latest w (ok p) =
      remember_published config p latest (publish_prepared input.repository p (get p.key latest) w)

  unfoldable pub publish :
      (String → Option Number)
      → Input
      → JsMap Freshness
      → World R
      → Result Error Publication × JsMap Freshness × World R
  unfolding prepare run_prepared
  publish date_parse input latest w = run_prepared input latest w (prepare date_parse config input)
