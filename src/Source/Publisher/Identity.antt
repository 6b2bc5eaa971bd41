-- ===== src/Source/Publisher/Identity.antt =====
-- What a result has to agree with before packages/adapters-source/src/github-checks.ts publishes it.
use Prim.Native.String.{◌++◌ as concat}
use verify_agent.Prelude.{
  String, Bool, true, false, Option, none, some, ok, ◌≡◌, refl, ap, ◌∙◌, ◌↔◌, ◌==◌, ensure, returns,
  ensured, leb, ◌&&◌, ok-injective, eq_iff, arith, &&-eq-true, is_empty, if◌then◌else◌,
}
use verify_agent.Prelude.Text.{codes, is_hex_of, lower}
use verify_agent.Json.{str, Number, nat, negative, non_integer}
use verify_agent.Errors.{Error}
use verify_agent.Domain.Types.{
  VerificationStatus, pass, needs_review, needs_changes, blocked, partial, error,
  VerificationResult,
}
use mathlib.Core.Path.{subst}
use verify_agent.Source.Freshness.{
  max_safe_integer, is_marker_hash, Freshness, marker_text, parse_marker, representable,
}
use verify_agent.Source.Freshness.RoundTrip.{written_marker}
use verify_agent.Source.Rendering.{conclusion_of, success, RepositorySnapshot, CheckRepository}
use verify_agent.Source.Publisher.{
  Config, Input, Prepared, prepare, resolve_head_sha, resolve_repository, assert_identity,
  read_ordering, is_expected, is_sha_of, mismatch, dated, represented,
}

pub record IsBound (input : Input) (p : Prepared) : Type 0 where
  pub head : lower input.snapshot.state_value ≡ p.head_sha
  pub exact : is_hex_of 40 p.head_sha ≡ true
  pub snapshot : input.result.snapshot_id ≡ input.snapshot.id
  pub project : input.result.project_id ≡ input.snapshot.project_id
  pub reference : lower input.snapshot.reference ≡ p.head_sha
  pub scheme :
      lower input.snapshot.id
      ≡ concat
          (concat (lower input.repository.owner) (concat "--" (lower input.repository.name)))
          (concat "--" p.head_sha)
  pub expected : is_expected input.expected_head_sha p.head_sha ≡ true
  pub marker : parse_marker (some (str (marker_text p.freshness))) ≡ some p.freshness
  pub conclusion : (p.conclusion ≡ success) ↔ (input.result.status ≡ pass)

conclusion_of-success :
    (status : VerificationStatus) → (conclusion_of status ≡ success) ↔ (status ≡ pass)
unfolding conclusion_of
conclusion_of-success pass = (λ _. refl, λ _. refl)
conclusion_of-success needs_review = (λ h. absurd (ground arith), λ h. absurd (ground arith))
conclusion_of-success needs_changes = (λ h. absurd (ground arith), λ h. absurd (ground arith))
conclusion_of-success blocked = (λ h. absurd (ground arith), λ h. absurd (ground arith))
conclusion_of-success partial = (λ h. absurd (ground arith), λ h. absurd (ground arith))
conclusion_of-success error = (λ h. absurd (ground arith), λ h. absurd (ground arith))

some-injective : {A : Type 0} {a b : A} → ◌≡◌ {A = Option A} (some a) (some b) → a ≡ b
some-injective e = cc

representable_again :
    (ms : Number) (hash : String) (f : Freshness)
    → representable ms hash ≡ some f
    → representable (nat f.created_at_ms) f.content_hash ≡ some f
unfolding representable
representable_again (nat n) hash f h = again (leb n max_safe_integer && is_marker_hash hash) refl h
  where
    again :
        (b : Bool)
        → leb n max_safe_integer && is_marker_hash hash ≡ b
        → (if b then some (record { created_at_ms = n; content_hash = hash }) else none) ≡ some f
        → representable (nat f.created_at_ms) f.content_hash ≡ some f
    again true t k =
        subst (λ z. representable (nat z.created_at_ms) z.content_hash ≡ some z) (some-injective k)
          (rw t refl)
    again false t k = absurd (ground arith)
representable_again (negative n) hash f h = absurd (ground arith)
representable_again (non_integer s) hash f h = absurd (ground arith)

resolve_head_sha-eq-ok :
    (snapshot : RepositorySnapshot) (head_sha : String)
    → resolve_head_sha snapshot ≡ ok head_sha
    → (lower snapshot.state_value ≡ head_sha) × (is_hex_of 40 head_sha ≡ true)
unfolding resolve_head_sha
resolve_head_sha-eq-ok snapshot head_sha h =
    let (commit, same) =
      ensured _ (snapshot.state_type == "commit" && is_hex_of 40 (lower snapshot.state_value)) _
        h in
    let eq = ok-injective same in
    (eq, subst (λ t. is_hex_of 40 t ≡ true) eq (&&-eq-true _ _ commit).1)

record Agrees (result : VerificationResult) (snapshot : RepositorySnapshot)
    (repository : CheckRepository) (head_sha : String) : Type 0 where
  same_snapshot : result.snapshot_id ≡ snapshot.id
  same_project : result.project_id ≡ snapshot.project_id
  same_reference : lower snapshot.reference ≡ head_sha
  by_scheme :
      lower snapshot.id
      ≡ concat
          (concat (lower repository.owner) (concat "--" (lower repository.name)))
          (concat "--" head_sha)

assert_identity-Agrees :
    (result : VerificationResult) (snapshot : RepositorySnapshot) (repository : CheckRepository)
    (head_sha : String)
    → assert_identity result snapshot repository head_sha ≡ ok tt
    → Agrees result snapshot repository head_sha
unfolding assert_identity
assert_identity-Agrees result snapshot repository head_sha h =
    let (a, h1) = ensured _ (result.snapshot_id == snapshot.id) _ h in
    let (b, h2) = ensured _ (result.project_id == snapshot.project_id) _ h1 in
    let (_, h3) = ensured _ (snapshot.provider == "github") _ h2 in
    let (d, h4) = ensured _ (lower snapshot.reference == head_sha) _ h3 in
    let (_, h5) = ensured _ (is_sha_of head_sha snapshot.commit_sha) _ h4 in
    let (_, h6) = ensured _ (lower snapshot.project_id == _) _ h5 in
    let g = ensured_last mismatch _ h6 in
    record {
      same_snapshot = (eq_iff _ _).0 a;
      same_project = (eq_iff _ _).0 b;
      same_reference = (eq_iff _ _).0 d;
      by_scheme = (eq_iff _ _).0 g;
    }
  where
    ensured_last : (e : Error) (b : Bool) → ensure b e ≡ ok tt → b ≡ true
    ensured_last e true k = refl
    ensured_last e false k = absurd (ground arith)

dated-representable :
    (hash : String) (ms : Option Number) (f : Freshness)
    → dated hash ms ≡ ok f
    → representable (nat f.created_at_ms) f.content_hash ≡ some f
unfolding dated
dated-representable hash none f h = absurd (ground arith)
dated-representable hash (some ms) f h = again (representable ms hash) refl h
  where
    again :
        (r : Option Freshness)
        → representable ms hash ≡ r
        → represented r ≡ ok f
        → representable (nat f.created_at_ms) f.content_hash ≡ some f
    again none e k = absurd (ground arith)
    again (some g) e k = representable_again ms hash f (e ∙ ap some (ok-injective k))

module _ (date_parse : String → Option Number) where
  read_ordering-representable :
      (result : VerificationResult) (f : Freshness)
      → read_ordering date_parse result ≡ ok f
      → representable (nat f.created_at_ms) f.content_hash ≡ some f
  unfolding read_ordering
  read_ordering-representable result f h =
      dated-representable
        (if is_empty (codes result.content_hash) then result.id else result.content_hash)
        (date_parse result.created_at) f h

  -- A result that passes the checks before the first request is one for the exact commit of its
  -- snapshot, for the snapshot's identity and project, by the identifiers of the repository, and for
  -- the expected commit where one is given; its marker is read back as its own freshness, and it is
  -- shown as a success exactly when it passed.
  pub prepare-IsBound :
      (config : Config) (input : Input) (p : Prepared)
      → prepare date_parse config input ≡ ok p
      → IsBound input p
  unfolding prepare
  prepare-IsBound config input p h = returns (resolve_head_sha input.snapshot) _ h λ head_sha e1 h1.
      returns (resolve_repository input.repository head_sha) _ h1 λ _ e2 h2.
        returns (assert_identity input.result input.snapshot input.repository head_sha) _ h2
          λ _ e3 h3.
            let (expected, h4) = ensured _ (is_expected input.expected_head_sha head_sha) _ h3 in
            returns (read_ordering date_parse input.result) _ h4 λ f e5 h5.
              let (head, exact) = resolve_head_sha-eq-ok input.snapshot head_sha e1 in
              let agrees =
                assert_identity-Agrees input.result input.snapshot input.repository head_sha e3 in
              subst (IsBound input) (ok-injective h5) (record {
                head = head;
                exact = exact;
                snapshot = agrees.same_snapshot;
                project = agrees.same_project;
                reference = agrees.same_reference;
                scheme = agrees.by_scheme;
                expected = expected;
                marker = written_marker f (read_ordering-representable input.result f e5);
                conclusion = conclusion_of-success input.result.status;
              })
