-- ===== src/Source/Publisher/Writes.antt =====
-- What a publication sends: `Sends` for the calls that packages/adapters-source/src/github-checks.ts
-- composes.
use mathlib.Core.Path.{subst}
use verify_agent.Prelude.{
  String, Bool, true, false, Result, ok, throw, ◌≡◌, refl, sym, ◌⊎◌, inl, inr, In,
}
use verify_agent.Json.{Number}
use verify_agent.Errors.{Error}
use verify_agent.Source.Rendering.{CheckRepository}
use verify_agent.Source.Publisher.{Config, Prepared}
use verify_agent.Source.Publisher.Remote.{
  Request, Client, World, Action, fail_if, continue, ◌>>=◌, ◌>>◌, acquire_installation_token,
  request_json,
}
use verify_agent.Source.Publisher.Checks.{
  create_request, update_request, lookup_request, create_check_run, update_check_run,
  find_existing_check_run,
}

module _ {R : Type 0} where
  -- Each request of the later world was there before or is as `P` says.
  abbrev pub Sends : (Request → Type 0) → World R → World R → Type 0
  Sends P before after = (q : Request) → In q after.sent → In q before.sent ⊎ P q

module _ {R : Type 0} (P : Request → Type 0) where
  pub Sends-bind :
      {A B : Type 0} (m : Action (World R) A) (f : A → Action (World R) B) (w : World R)
      → Sends P w (m w).1
      → ((a : A) (next : World R) → m w ≡ (ok a, next) → Sends P next (f a next).1)
      → Sends P w ((m >>= f) w).1
  unfolding ◌>>=◌
  Sends-bind {A} {B} m f w first rest = after (m w) refl first
    where
      after :
          (out : Result Error A × World R)
          → m w ≡ out
          → Sends P w out.1
          → Sends P w (continue f out).1
      after (ok a, next) e first q i = elim (rest a next e q i) [
        | inl old ↦ first q old
        | inr new ↦ inr new
      ]
      after (throw error, next) e first q i = first q i

  -- After a guard, nothing more is sent unless it holds.
  pub Sends-guarded :
      {A B : Type 0} (c : Bool) (e : Error) (m : Action (World R) A) (f : A → Action (World R) B)
      (w : World R)
      → (c ≡ false → Sends P w ((m >>= f) w).1)
      → Sends P w ((fail_if c e >> m >>= f) w).1
  unfolding ◌>>=◌
  Sends-guarded true e m f w h = λ q i. inl i
  Sends-guarded false e m f w h = h refl

  module _ (client : Client R) where
    pub Sends-request : (q : Request) (w : World R) → P q → Sends P w (request_json client q w).1
    unfolding request_json ◌>>=◌
    Sends-request q w p r (inl e) = inr (subst P (sym e) p)
    Sends-request q w p r (inr old) = inl old

    pub Sends-token :
        (owner name : String) (w : World R)
        → Sends P w (acquire_installation_token client owner name w).1
    unfolding acquire_installation_token
    Sends-token owner name w =
        Sends-bind _ _ w (λ q i. inl i)
          λ id w1 _.
            Sends-bind _ _ w1 (λ q i. inl i)
              λ token w2 _. Sends-bind _ _ w2 (λ q i. inl i) λ _ w3 _ q i. inl i

    pub Sends-create :
        (config : Config) (token : String) (repository : CheckRepository) (p : Prepared)
        (w : World R)
        → P (create_request config token repository p)
        → Sends P w (create_check_run client config token repository p w).1
    unfolding create_check_run
    Sends-create config token repository p w h =
        Sends-bind _ _ w (Sends-request (create_request config token repository p) w h)
          λ response w1 _. Sends-bind _ _ w1 (λ q i. inl i) λ _ w2 _ q i. inl i

    pub Sends-update :
        (config : Config) (token : String) (repository : CheckRepository) (id : Number)
        (p : Prepared) (w : World R)
        → P (update_request config token repository id p)
        → Sends P w (update_check_run client config token repository id p w).1
    unfolding update_check_run
    Sends-update config token repository id p w h =
        Sends-bind _ _ w (Sends-request (update_request config token repository id p) w h)
          λ response w1 _ q i. inl i

    pub Sends-find :
        (above : Number → Number → Bool) (config : Config) (token : String)
        (repository : CheckRepository) (head_sha : String) (w : World R)
        → P (lookup_request config token repository head_sha)
        → Sends P w (find_existing_check_run client above config token repository head_sha w).1
    unfolding find_existing_check_run
    Sends-find above config token repository head_sha w h =
        Sends-bind _ _ w (Sends-request (lookup_request config token repository head_sha) w h)
          λ response w1 _. Sends-bind _ _ w1 (λ q i. inl i) λ _ w2 _ q i. inl i
