-- ===== src/Bot/Webhook/Arrivals.antt =====
-- Sequences of webhook requests, and what they leave of an entry of the replay guard.
use verify_agent.Prelude.{
  ℕ, suc, ◌+◌, ◌≤◌, String, Bool, true, false, List, [], ◌∷◌, Option, Result, ok, throw, ◌≡◌, arith,
  length, All, ◌==◌,
}
use verify_agent.JsMap.{size}
use verify_agent.Json.{Json}
use verify_agent.Errors.{Error}
use verify_agent.Domain.Queue.{QueueJob}
use verify_agent.Bot.Orchestrator.{Orchestration}
use verify_agent.Bot.Replay.{Entry, Guard, is_expired, reserve}
use verify_agent.Bot.Replay.Held.{IsHeld, reserve-IsHeld, commit-IsHeld, rollback-IsHeld}
use verify_agent.Bot.Webhook.{
  WebhookRequest, Server, Response, authenticate, delivery_of, process, finish, admit, checked,
  handle_request,
}

-- A request with the time, the identity and the date that the handler uses for it.
pub record Arrival : Type 0 where
  pub time : ℕ
  pub new_job_id : String
  pub created : String
  pub request : WebhookRequest

module _ (hmac : String → String → String) (parse_json : String → Option Json)
    (byte_length : String → ℕ) (secret : String) (max_bytes : ℕ) {Q : Type 0} (max_entries ttl : ℕ)
    (enqueue : QueueJob → Q → Result Error Q) where
  abbrev pub answer : Arrival → Server Q → Response × Server Q
  unfolding handle_request
  answer a s =
      handle_request hmac parse_json byte_length secret max_bytes max_entries ttl a.time enqueue
        a.new_job_id a.created a.request s

  -- The server after the requests, one after the other.
  unfoldable pub run : List Arrival → Server Q → Server Q
  unfolding answer
  run [] s = s
  run (a ∷ arrivals) s = run arrivals (answer a s).1

  module _ (id : String) (kept : Entry) where
    -- The entry is still there, and the guard has grown by one entry at most.
    abbrev Holds : Guard → Guard → Type 0
    Holds before after = IsHeld id kept after × (size after ≤ suc (size before))

    answer-Holds :
        (a : Arrival) (s : Server Q)
        → size s.guard ≤ max_entries
        → is_expired a.time kept ≡ false
        → IsHeld id kept s.guard
        → Holds s.guard
            (handle_request hmac parse_json byte_length secret max_bytes max_entries ttl a.time
              enqueue a.new_job_id a.created a.request s).1.guard
    unfolding handle_request checked admit finish
    answer-Holds a s room live h =
        by_check (authenticate hmac parse_json byte_length secret max_bytes a.request)
      where
        delivery : String
        delivery = delivery_of hmac parse_json byte_length secret max_bytes a.request

        by_process :
            (g : Guard) (p : Result Error (Orchestration × Q))
            → (delivery == id) ≡ false
            → Holds s.guard g
            → Holds s.guard
                (finish hmac parse_json byte_length secret max_bytes max_entries ttl a.time enqueue
                  a.new_job_id a.created a.request g s.queue p).1.guard
        by_process g (ok (o, q)) apart (k, grown) =
            let (next, small) = commit-IsHeld max_entries ttl a.time id delivery kept g apart k in
            (next, omega arith)
        by_process g (throw e) apart (k, grown) =
            let (next, small) = rollback-IsHeld max_entries ttl id delivery kept g apart k in
            (next, omega arith)

        by_reserve :
            (p : Bool × Guard)
            → Holds s.guard p.1
            → ((delivery == id) ≡ true → p.0 ≡ false)
            → Holds s.guard
                (admit hmac parse_json byte_length secret max_bytes max_entries ttl a.time enqueue
                  a.new_job_id a.created a.request s.queue p).1.guard
        by_reserve (false, g) k other = k
        by_reserve (true, g) k other =
            let apart : (delivery == id) ≡ false = ground arith in
            by_process g
              (process hmac parse_json byte_length secret max_bytes max_entries ttl a.time enqueue
                a.new_job_id a.created a.request s.queue)
              apart k

        by_check :
            (c : Result Error (Unit {0}))
            → Holds s.guard
                (checked hmac parse_json byte_length secret max_bytes max_entries ttl a.time enqueue
                  a.new_job_id a.created a.request s c).1.guard
        by_check (throw e) = (h, omega arith)
        by_check (ok u) =
            let (next, grown, refused) =
              reserve-IsHeld max_entries ttl a.time id delivery kept s.guard room live h in
            by_reserve (reserve max_entries ttl a.time delivery s.guard) (next, grown) refused

    -- While the guard has room for the requests and the entry has not expired, it stays.
    pub run-IsHeld :
        (arrivals : List Arrival) (s : Server Q)
        → size s.guard + length arrivals ≤ max_entries
        → All (λ a. is_expired a.time kept ≡ false) arrivals
        → IsHeld id kept s.guard
        → IsHeld id kept (run arrivals s).guard × (size (run arrivals s).guard ≤ max_entries)
    unfolding run
    run-IsHeld [] s room live h = (h, omega arith)
    run-IsHeld (a ∷ arrivals) s room (live, later) h =
        let (next, grown) = answer-Holds a s (omega arith) live h in
        run-IsHeld arrivals (answer a s).1 (omega arith) later next
