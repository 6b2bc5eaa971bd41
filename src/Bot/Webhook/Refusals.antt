-- ===== src/Bot/Webhook/Refusals.antt =====
-- Requests that are refused, and deliveries that come twice.
use verify_agent.Prelude.{
  ℕ, ◌+◌, ◌≤◌, ◌<◌, String, Bool, true, false, List, [], ◌∷◌, Option, none, some, Result, ok, throw,
  ◌≡◌, refl, sym, ap, ◌∙◌, arith, eq_iff, ==_refl, Bool-cases, inl, inr, ◌⊎◌, NoDup, All, length,
  is_some,
}
use verify_agent.JsMap.{get, put, keys, size}
use verify_agent.JsMap.Laws.{get-put, get-delete, NoDup-put}
use verify_agent.Json.{Json}
use verify_agent.Errors.{Error}
use verify_agent.Domain.Queue.{QueueJob}
use verify_agent.Bot.Orchestrator.{Orchestration}
use verify_agent.Bot.Replay.{Guard, reserve, commit, rollback, prune, reserved, until, is_expired}
use verify_agent.Bot.Replay.Held.{IsHeld, IsReserved, reserve-IsHeld}
use verify_agent.Bot.Replay.Exclusion.{reserve-IsReserved}
use verify_agent.Bot.Webhook.{
  WebhookRequest, Server, Response, accepted, replay_detected, respond_error, authenticate,
  delivery_of, process, finish, admit, checked, handle_request,
}
use verify_agent.Bot.Webhook.Arrivals.{Arrival, run, run-IsHeld}
use verify_agent.Bot.Webhook.Responses.{handle_request-IsAccepted}

-- A delivery that was just reserved and is rolled back leaves no entry.
reserve-rollback :
    (max_entries ttl now : ℕ) (id : String) (m g : Guard)
    → reserve max_entries ttl now id m ≡ (true, g)
    → get id (rollback id g) ≡ none
unfolding reserve rollback
reserve-rollback max_entries ttl now id m g e =
    let pruned = prune max_entries now m in
    elim (Bool-cases (is_some (get id pruned))) [
      | inl taken ↦ let f = ap (λ p. p.0) e in absurd (ground arith)
      | inr free ↦
          let after : put id reserved pruned ≡ g = ap (λ p. p.1) (rw free at e) in
          let held : get id g ≡ some reserved =
            ap (get id) (sym after)
            ∙ get-put id id reserved pruned
            ∙ ground (arith, eq_iff id id) in
          rw (held, get-delete id id g) (ground (arith, eq_iff id id))
    ]

committed :
    (max_entries ttl now : ℕ) (id : String) (m : Guard)
    → IsReserved id m
    → IsHeld id (until (now + ttl)) (commit max_entries ttl now id m)
unfolding commit
committed max_entries ttl now id m r = rw r.held (record {
  held = get-put id id (until (now + ttl)) m ∙ ground (arith, eq_iff id id);
  once = NoDup-put id (until (now + ttl)) m r.once;
})

All-unexpired :
    (limit : ℕ) (arrivals : List Arrival)
    → All (λ a. a.time < limit) arrivals
    → All (λ a. is_expired a.time (until limit) ≡ false) arrivals
All-unexpired limit [] h = tt
All-unexpired limit (a ∷ arrivals) (now, later) = (ground arith, All-unexpired limit arrivals later)

module _ (hmac : String → String → String) (parse_json : String → Option Json)
    (byte_length : String → ℕ) (secret : String) (max_bytes : ℕ) {Q : Type 0} (max_entries ttl : ℕ)
    (enqueue : QueueJob → Q → Result Error Q) where
  module _ (now : ℕ) (new_job_id created : String) where
    -- Why a request is not accepted, and what it leaves: the queue as it was, and the guard as it
    -- was, or without what had expired, or without any entry of the delivery.
    abbrev pub IsRefused : WebhookRequest → Server Q → Response × Server Q → Type 0
    unfolding delivery_of
    IsRefused r s (response, t) =
        (t.queue ≡ s.queue)
        × (((e : Error) × (authenticate hmac parse_json byte_length secret max_bytes r ≡ throw e)
              × (response ≡ respond_error e)
              × (t.guard ≡ s.guard))
            ⊎ ((reserve max_entries ttl now
                    (delivery_of hmac parse_json byte_length secret max_bytes r) s.guard
                  ≡ (false, t.guard))
                × (response ≡ replay_detected))
            ⊎ ((e : Error) × ((reserve max_entries ttl now
                    (delivery_of hmac parse_json byte_length secret max_bytes r) s.guard).0
                  ≡ true)
                × (process hmac parse_json byte_length secret max_bytes max_entries ttl now enqueue
                      new_job_id created r s.queue
                    ≡ throw e)
                × (response ≡ respond_error e)
                × (get (delivery_of hmac parse_json byte_length secret max_bytes r) t.guard
                    ≡ none)))

    abbrev Answered : WebhookRequest → Server Q → Response × Server Q → Type 0
    Answered r s out = ((o : Orchestration) × (out.0 ≡ accepted o)) ⊎ IsRefused r s out

    -- A request is accepted, or it is refused without a change of the queue: because a test before
    -- the reservation threw, and then the guard is as it was; or because the delivery is there
    -- already; or because its processing threw, and then the guard has no entry of the delivery, so
    -- that it can be sent again. The response to an error is the one of its class.
    pub handle_request-cases :
        (r : WebhookRequest) (s : Server Q)
        → ((o : Orchestration) × ((handle_request hmac parse_json byte_length secret max_bytes
                max_entries ttl now enqueue new_job_id created r s).0
              ≡ accepted o))
          ⊎ IsRefused r s (
              handle_request hmac parse_json byte_length secret max_bytes max_entries ttl now
                enqueue new_job_id created r s)
    unfolding handle_request checked admit finish
    handle_request-cases r s =
        by_check (authenticate hmac parse_json byte_length secret max_bytes r) refl
      where
        id : String
        id = delivery_of hmac parse_json byte_length secret max_bytes r

        by_process :
            (g : Guard) (p : Result Error (Orchestration × Q))
            → reserve max_entries ttl now id s.guard ≡ (true, g)
            → process hmac parse_json byte_length secret max_bytes max_entries ttl now enqueue
                new_job_id created r s.queue
              ≡ p
            → Answered r s (
                finish hmac parse_json byte_length secret max_bytes max_entries ttl now enqueue
                  new_job_id created r g s.queue p)
        by_process g (ok (o, q)) f e = inl (o, refl)
        by_process g (throw err) f e = inr (
          refl,
          inr (
              inr (
                err,
                ap (λ x. x.0) f,
                e,
                refl,
                reserve-rollback max_entries ttl now id s.guard g f,
              )),
        )

        by_reserve :
            (p : Bool × Guard)
            → reserve max_entries ttl now id s.guard ≡ p
            → Answered r s (
                admit hmac parse_json byte_length secret max_bytes max_entries ttl now enqueue
                  new_job_id created r s.queue p)
        by_reserve (false, g) f = inr (refl, inr (inl (f, refl)))
        by_reserve (true, g) f = by_process g _ f refl

        by_check :
            (c : Result Error (Unit {0}))
            → authenticate hmac parse_json byte_length secret max_bytes r ≡ c
            → Answered r s (
                checked hmac parse_json byte_length secret max_bytes max_entries ttl now enqueue
                  new_job_id created r s c)
        by_check (throw e) c = inr (refl, inl (e, c, refl, refl))
        by_check (ok u) c = by_reserve (reserve max_entries ttl now id s.guard) refl

  refused-queue :
      (later : ℕ) (new_job_id created : String) (r : WebhookRequest) (t : Server Q)
      → (reserve max_entries ttl later
          (delivery_of hmac parse_json byte_length secret max_bytes r)
          t.guard).0
        ≡ false
      → (handle_request hmac parse_json byte_length secret max_bytes max_entries ttl later enqueue
          new_job_id created r t).1.queue
        ≡ t.queue
  unfolding handle_request checked admit
  refused-queue later new_job_id created r t e =
      by_check (authenticate hmac parse_json byte_length secret max_bytes r)
    where
      by_reserve :
          (p : Bool × Guard)
          → p.0 ≡ false
          → (admit hmac parse_json byte_length secret max_bytes max_entries ttl later enqueue
              new_job_id created r t.queue p).1.queue
            ≡ t.queue
      by_reserve (false, g) f = refl
      by_reserve (true, g) f = absurd (ground arith)

      by_check :
          (c : Result Error (Unit {0}))
          → (checked hmac parse_json byte_length secret max_bytes max_entries ttl later enqueue
              new_job_id created r t c).1.queue
            ≡ t.queue
      by_check (throw err) = refl
      by_check (ok u) = by_reserve (reserve max_entries ttl later _ t.guard) e

  -- After a delivery is accepted by a guard without double entries, and after any further requests,
  -- another request with the same delivery does not change the queue until its time has passed, as
  -- long as the guard has room for those requests.
  pub handle_request-once :
      (now later : ℕ) (id1 at1 id2 at2 : String) (r1 r2 : WebhookRequest) (s t : Server Q)
      (o : Orchestration) (arrivals : List Arrival)
      → NoDup (keys s.guard)
      → handle_request hmac parse_json byte_length secret max_bytes max_entries ttl now enqueue id1
          at1 r1 s
        ≡ (accepted o, t)
      → delivery_of hmac parse_json byte_length secret max_bytes r2
        ≡ delivery_of hmac parse_json byte_length secret max_bytes r1
      → size t.guard + length arrivals ≤ max_entries
      → All (λ a. a.time < now + ttl) arrivals
      → later < now + ttl
      → (let u =
            run hmac parse_json byte_length secret max_bytes max_entries ttl enqueue arrivals t in
          (handle_request hmac parse_json byte_length secret max_bytes max_entries ttl later enqueue
            id2 at2 r2 u).1.queue
          ≡ u.queue)
  handle_request-once now later id1 at1 id2 at2 r1 r2 s t o arrivals once h same room between soon =
      let a =
        handle_request-IsAccepted hmac parse_json byte_length secret max_bytes max_entries ttl now
          enqueue id1 at1 r1 s t o h in
      let id = delivery_of hmac parse_json byte_length secret max_bytes r1 in
      let kept = until (now + ttl) in
      let reserved_by = reserve-IsReserved max_entries ttl now id s.guard a.guard once a.fresh in
      let start : IsHeld id kept t.guard =
        rw a.committed (committed max_entries ttl now id a.guard reserved_by) in
      let u = run hmac parse_json byte_length secret max_bytes max_entries ttl enqueue arrivals t in
      let (held, fits) =
        run-IsHeld hmac parse_json byte_length secret max_bytes max_entries ttl enqueue id kept
          arrivals t room (All-unexpired (now + ttl) arrivals between) start in
      let (_, _, refused) =
        reserve-IsHeld max_entries ttl later id id kept u.guard fits (ground arith) held in
      refused-queue later id2 at2 r2 u (rw same (refused (==_refl id)))
