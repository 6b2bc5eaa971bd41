-- ===== src/Bot/Webhook/Responses.antt =====
-- What a webhook request does to the queue and to the guard.
use verify_agent.Prelude.{
  ensure_holds, ℕ, String, Bool, true, false, Option, some, Result, ok, throw, ◌≡◌, refl, sym, ap,
  ◌∙◌, arith, returns, eq_iff, reject_if, ltb,
}
use verify_agent.Prelude.Text.{is_blank, is_hex_of, trim, lower, after_prefix}
use verify_agent.Json.{Json}
use verify_agent.Errors.{Error}
use verify_agent.Domain.Queue.{QueueJob}
use verify_agent.Bot.Orchestrator.{Orchestration}
use verify_agent.Bot.Replay.{Guard, reserve, commit}
use verify_agent.Bot.Webhook.{
  WebhookRequest, Server, Response, accepted, respond_error, verify_signature, hex_of, or_blank,
  authenticate, delivery_of, process, finish, admit, checked, handle_request,
}

-- The request's header carries the HMAC of its body.
abbrev pub IsAuthentic : (String → String → String) → String → WebhookRequest → Type 0
IsAuthentic hmac secret r =
    (hex : String) × (after_prefix "sha256=" (trim (or_blank r.signature)) ≡ some hex)
    × (is_hex_of 64 hex ≡ true)
    × (hmac secret r.body ≡ lower hex)

hex_of-eq-ok :
    (o : Option String) (hex : String)
    → hex_of o ≡ ok hex
    → (o ≡ some hex) × (is_hex_of 64 hex ≡ true)
unfolding hex_of
hex_of-eq-ok o hex h = ground arith

verify_signature-IsAuthentic :
    (hmac : String → String → String) (secret : String) (r : WebhookRequest) (u : Unit {0})
    → verify_signature hmac secret r.signature r.body ≡ ok u
    → IsAuthentic hmac secret r
unfolding verify_signature
verify_signature-IsAuthentic hmac secret r u h =
    returns (reject_if (is_blank secret) _) _ h λ _ _ h1.
      returns (reject_if (is_blank (or_blank r.signature)) _) _ h1 λ _ _ h2.
        returns (hex_of (after_prefix "sha256=" (trim (or_blank r.signature)))) _ h2 λ hex e h3.
          let (found, valid) = hex_of-eq-ok _ hex e in
          (hex, found, valid, (eq_iff (hmac secret r.body) (lower hex)).0 (ensure_holds _ _ u h3))

respond_error-refuses : (e : Error) (o : Orchestration) → respond_error e ≡ accepted o → ⊥
unfolding respond_error
respond_error-refuses e o h = ground arith

accepted-injective : {a b : Orchestration} → accepted a ≡ accepted b → a ≡ b
accepted-injective e = cc

module _ (hmac : String → String → String) (parse_json : String → Option Json)
    (byte_length : String → ℕ) (secret : String) (max_bytes : ℕ) {Q : Type 0}
    (max_entries ttl now : ℕ) (enqueue : QueueJob → Q → Result Error Q)
    (new_job_id created : String) where
  abbrev handled : WebhookRequest → Server Q → Response × Server Q
  unfolding handle_request
  handled r s =
      handle_request hmac parse_json byte_length secret max_bytes max_entries ttl now enqueue
        new_job_id created r s

  abbrev processed : WebhookRequest → Q → Result Error (Orchestration × Q)
  unfolding process
  processed r q =
      process hmac parse_json byte_length secret max_bytes max_entries ttl now enqueue new_job_id
        created r q

  abbrev id_of : WebhookRequest → String
  unfolding delivery_of
  id_of r = delivery_of hmac parse_json byte_length secret max_bytes r

  -- What led to an accepted request.
  pub record IsAccepted (r : WebhookRequest) (s t : Server Q) (o : Orchestration) : Type 0 where
    pub authentic : IsAuthentic hmac secret r
    pub guard : Guard
    pub fresh :
        reserve max_entries ttl now
          (delivery_of hmac parse_json byte_length secret max_bytes r)
          s.guard
        ≡ (true, guard)
    pub committed :
        t.guard
        ≡ commit max_entries ttl now
            (delivery_of hmac parse_json byte_length secret max_bytes r)
            guard
    pub orchestrated :
        process hmac parse_json byte_length secret max_bytes max_entries ttl now enqueue new_job_id
          created r s.queue
        ≡ ok (o, t.queue)

  -- A request is accepted only if its signature is the HMAC of its body under the secret and its
  -- delivery was fresh; then the queue is the orchestrator's, and the delivery is committed.
  pub handle_request-IsAccepted :
      (r : WebhookRequest) (s t : Server Q) (o : Orchestration)
      → handle_request hmac parse_json byte_length secret max_bytes max_entries ttl now enqueue
          new_job_id created r s
        ≡ (accepted o, t)
      → IsAccepted r s t o
  unfolding handle_request checked admit finish authenticate
  handle_request-IsAccepted r s t o h =
      by_check (authenticate hmac parse_json byte_length secret max_bytes r) refl h
    where
      id : String
      id = delivery_of hmac parse_json byte_length secret max_bytes r

      by_process :
          (g : Guard) (p : Result Error (Orchestration × Q))
          → IsAuthentic hmac secret r
          → reserve max_entries ttl now id s.guard ≡ (true, g)
          → process hmac parse_json byte_length secret max_bytes max_entries ttl now enqueue
              new_job_id created r s.queue
            ≡ p
          → finish hmac parse_json byte_length secret max_bytes max_entries ttl now enqueue
              new_job_id created r g s.queue p
            ≡ (accepted o, t)
          → IsAccepted r s t o
      by_process g (throw e) a f p k = absurd (respond_error-refuses e o (ap (λ x. x.0) k))
      by_process g (ok (o2, q2)) a f p k =
          let same : o2 ≡ o = accepted-injective (ap (λ x. x.0) k) in
          let after = ap (λ x. x.1) k in
          record {
            authentic = a;
            guard = g;
            fresh = f;
            committed = ap (λ (x : Server Q). x.guard) (sym after);
            orchestrated = p ∙ rw (same, ap (λ (x : Server Q). x.queue) after) refl;
          }

      by_reserve :
          (p : Bool × Guard)
          → IsAuthentic hmac secret r
          → reserve max_entries ttl now id s.guard ≡ p
          → admit hmac parse_json byte_length secret max_bytes max_entries ttl now enqueue
              new_job_id created r s.queue p
            ≡ (accepted o, t)
          → IsAccepted r s t o
      by_reserve (false, g) a f k = absurd (let e = ap (λ x. x.0) k in ground arith)
      by_reserve (true, g) a f k = by_process g (processed r s.queue) a f refl k

      by_check :
          (c : Result Error (Unit {0}))
          → authenticate hmac parse_json byte_length secret max_bytes r ≡ c
          → checked hmac parse_json byte_length secret max_bytes max_entries ttl now enqueue
              new_job_id created r s c
            ≡ (accepted o, t)
          → IsAccepted r s t o
      by_check (throw e) c k = absurd (respond_error-refuses e o (ap (λ x. x.0) k))
      by_check (ok u) c k = returns (reject_if (ltb max_bytes (byte_length r.body)) _) _ c λ _ _ c1.
          returns (reject_if (is_blank (or_blank r.delivery)) _) _ c1 λ _ _ c2.
            returns (reject_if (is_blank (or_blank r.event)) _) _ c2 λ _ _ c3.
              by_reserve (reserve max_entries ttl now id s.guard)
                (verify_signature-IsAuthentic hmac secret r u c3) refl k
