-- ===== src/Source/Publisher/Safety.antt =====
-- What packages/adapters-source/src/github-checks.ts may change on GitHub.
use verify_agent.Prelude.{
  String, Bool, false, Option, none, some, Result, ok, throw, ◌≡◌, refl, sym, ◌⊎◌, inl, inr, In,
}
use mathlib.Core.Path.{subst}
use verify_agent.JsMap.{JsMap, get}
use verify_agent.Json.{Json, Number, str, prop}
use verify_agent.Errors.{Error}
use verify_agent.Source.Freshness.{Freshness, parse_marker, marker_text}
use verify_agent.Source.Publisher.{Config, Input, Prepared, prepare}
use verify_agent.Source.Publisher.Remote.{Request, Client, World, get_method}
use verify_agent.Source.Publisher.Checks.{
  FoundRun, create_request, update_request, find_existing_check_run,
}
use verify_agent.Source.Publisher.Publishing.{
  Publication, is_stale, stale, create_new, after_update, overwrite, create_or_update,
  publish_prepared, publish, remember_published, run_prepared,
}
use verify_agent.Source.Publisher.Writes.{
  Sends, Sends-bind, Sends-guarded, Sends-token, Sends-create, Sends-update, Sends-find,
}

module _ {R : Type 0} (client : Client R) (above : Number → Number → Bool) (config : Config)
    (input : Input) (p : Prepared) (latest : JsMap Freshness) where
  -- The body of the request has the marker of the result as its `external_id`.
  abbrev pub IsMarked : Request → Type 0
  IsMarked q =
      (body : Json) × (q.body ≡ some body)
      × (prop "external_id" body ≡ some (str (marker_text p.freshness)))

  create_request-IsMarked :
      (token : String) → IsMarked (create_request config token input.repository p)
  unfolding create_request
  create_request-IsMarked token = (_, refl, refl)

  update_request-IsMarked :
      (token : String) (id : Number) → IsMarked (update_request config token input.repository id p)
  unfolding update_request
  update_request-IsMarked token id = (_, refl, refl)

  -- A request that changes GitHub, and what it needs.
  pub record IsWrite (q : Request) : Type 0 where
    pub marked : IsMarked q
    pub token : String
    pub asked : World R
    pub answered : World R
    pub found : Option FoundRun
    -- The memory holds no newer result for the key.
    pub remembered : is_stale p.freshness (get p.key latest) ≡ false
    -- What the lookup found.
    pub lookup :
        find_existing_check_run client above config token input.repository p.head_sha asked
        ≡ (ok found, answered)
    pub allowed :
        ((found ≡ none) × (q ≡ create_request config token input.repository p))
        ⊎ ((run : FoundRun) × (remote : Freshness) × (found ≡ some run)
            × (parse_marker run.external_id ≡ some remote)
            × (is_stale p.freshness (some remote) ≡ false)
            × ((q ≡ update_request config token input.repository run.id p)
                ⊎ (q ≡ create_request config token input.repository p)))

  abbrev pub IsAllowed : Request → Type 0
  IsAllowed q = (q.method ≡ get_method) ⊎ IsWrite q

  Sends-new :
      (token : String) (w : World R)
      → IsAllowed (create_request config token input.repository p)
      → Sends IsAllowed w (create_new client above config token input.repository p w).1
  unfolding create_new
  Sends-new token w h =
      Sends-bind IsAllowed _ _ w (Sends-create IsAllowed client config token input.repository p w h)
        λ id w1 _ q i. inl i

  Sends-after_update :
      (token : String) (id : Option Number) (w : World R)
      → IsAllowed (create_request config token input.repository p)
      → Sends IsAllowed w (after_update client above config token input.repository p id w).1
  unfolding after_update
  Sends-after_update token (some id) w h = λ q i. inl i
  Sends-after_update token none w h = Sends-new token w h

  module _ (token : String) (asked answered : World R)
      (remembered : is_stale p.freshness (get p.key latest) ≡ false) where
    module _ (run : FoundRun)
        (lookup : find_existing_check_run client above config token input.repository p.head_sha
            asked
          ≡ (ok (some run), answered)) where
      Sends-overwrite :
          (remote : Option Freshness)
          → parse_marker run.external_id ≡ remote
          → Sends IsAllowed answered
              (overwrite client above config token input.repository p run remote answered).1
      unfolding overwrite
      Sends-overwrite none e = λ q i. inl i
      Sends-overwrite (some remote) e =
          Sends-guarded IsAllowed (is_stale p.freshness (some remote)) stale _ _ answered λ fresh.
            Sends-bind IsAllowed _ _ answered
              (Sends-update IsAllowed client config token input.repository run.id p answered
                (inr (write fresh (inl refl))))
              λ id w1 _. Sends-after_update token id w1 (inr (write fresh (inr refl)))
        where
          write :
              {q : Request}
              → is_stale p.freshness (some remote) ≡ false
              → (q ≡ update_request config token input.repository run.id p)
                ⊎ (q ≡ create_request config token input.repository p)
              → IsWrite q
          write fresh which = record {
            marked = elim which [
              | inl e ↦ subst IsMarked (sym e) (update_request-IsMarked token run.id)
              | inr e ↦ subst IsMarked (sym e) (create_request-IsMarked token)
            ];
            token = token;
            asked = asked;
            answered = answered;
            found = some run;
            remembered = remembered;
            lookup = lookup;
            allowed = inr (run, remote, refl, e, fresh, which);
          }

    Sends-create_or_update :
        (found : Option FoundRun)
        → find_existing_check_run client above config token input.repository p.head_sha asked
          ≡ (ok found, answered)
        → Sends IsAllowed answered
            (create_or_update client above config token input.repository p found answered).1
    unfolding create_or_update
    Sends-create_or_update none lookup = Sends-new token answered (
        inr (record {
          marked = create_request-IsMarked token;
          token = token;
          asked = asked;
          answered = answered;
          found = none;
          remembered = remembered;
          lookup = lookup;
          allowed = inl (refl, refl);
        }))
    Sends-create_or_update (some run) lookup =
        Sends-overwrite run lookup (parse_marker run.external_id) refl

  Sends-prepared :
      (w : World R)
      → Sends IsAllowed w
          (publish_prepared client above config input.repository p (get p.key latest) w).1
  unfolding publish_prepared
  Sends-prepared w =
      Sends-guarded IsAllowed (is_stale p.freshness (get p.key latest)) stale _ _ w λ remembered.
        Sends-bind IsAllowed _ _ w
          (Sends-token IsAllowed client input.repository.owner input.repository.name w)
          λ token w1 _.
            Sends-bind IsAllowed _ _ w1
              (Sends-find IsAllowed client above config token input.repository p.head_sha w1
                (inl refl))
              λ found w2 lookup. Sends-create_or_update token w1 w2 remembered found lookup

module _ {R : Type 0} (client : Client R) (above : Number → Number → Bool) (config : Config)
    (date_parse : String → Option Number) where
  abbrev Outcome : Input → JsMap Freshness → World R → Request → Type 0
  Outcome input latest w q =
      In q w.sent
      ⊎ (q.method ≡ get_method)
      ⊎ ((p : Prepared) × (prepare date_parse config input ≡ ok p)
          × IsWrite client above config input p latest q)

  -- Whatever GitHub answers, a publication changes nothing there but by requests whose `external_id`
  -- is the result's own marker, for a result that passed all checks of its identity and is not older
  -- than the one that the publisher's bounded memory holds for its key, if it holds one, and then
  -- only when the lookup just made found no run of this App, or one whose marker parses and is not
  -- newer than the result.
  pub publish-IsWrite :
      (input : Input) (latest : JsMap Freshness) (w : World R) (q : Request)
      → In q (publish client above config date_parse input latest w).2.sent
      → In q w.sent
        ⊎ (q.method ≡ get_method)
        ⊎ ((p : Prepared) × (prepare date_parse config input ≡ ok p)
            × IsWrite client above config input p latest q)
  unfolding publish run_prepared remember_published
  publish-IsWrite input latest w q i = split (prepare date_parse config input) refl i
    where
      carry :
          (p : Prepared)
          → prepare date_parse config input ≡ ok p
          → In q w.sent ⊎ IsAllowed client above config input p latest q
          → Outcome input latest w q
      carry p e (inl old) = inl old
      carry p e (inr (inl asking)) = inr (inl asking)
      carry p e (inr (inr write)) = inr (inr (p, e, write))

      after :
          (p : Prepared)
          → prepare date_parse config input ≡ ok p
          → (out : Result Error Publication × World R)
          → Sends (IsAllowed client above config input p latest) w out.1
          → In q (remember_published config p latest out).2.sent
          → Outcome input latest w q
      after p e (ok done, next) sends j = carry p e (sends q j)
      after p e (throw error, next) sends j = carry p e (sends q j)

      split :
          (prepared : Result Error Prepared)
          → prepare date_parse config input ≡ prepared
          → In q (run_prepared client above config input latest w prepared).2.sent
          → Outcome input latest w q
      split (throw error) e j = inl j
      split (ok p) e j = after p e _ (Sends-prepared client above config input p latest w) j
