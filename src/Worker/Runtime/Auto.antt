-- ===== src/Worker/Runtime/Auto.antt =====
-- apps/worker/src/runtime.ts: automatic processing. A step is what runs from one `await` to the next,
-- and the environment chooses which promise is settled next. Each generation has one loop; its phase
-- is the `await` at which it stands. `chain` is the chain of promises of `processingSlot`: the
-- generations that wait for the slot, the one that holds it first.
pub mod Slot
pub mod Chaining
pub mod Exclusion
pub mod Sleeping
pub mod Alert
pub mod Resuming
pub mod Waking
pub mod Stopping
use verify_agent.Prelude.{
  ℕ, zero, suc, String, Bool, true, false, not, ◌&&◌, List, [], ◌∷◌, ◌++◌, Option, none, some,
  Result, ok, throw, nat_eq, is_some, if◌then◌else◌, ◌≡◌, In,
}
use verify_agent.Errors.{Error}
use verify_agent.Domain.Types.{VerificationResult}
use verify_agent.Domain.Validation.{Url}
use verify_agent.Domain.Queue.{QueueJob}
use verify_agent.Worker.Runtime.{JobQueue, Outcome, idle, completed, failed, State, settle}

-- What `runAutomaticNext` returned: it threw, it was invalidated, or it has an outcome.
pub data Answer : Type 0 where
  threw invalidated : Answer
  outcome : Outcome → Answer

-- `exited` also before the loop of a generation starts. `returned` still holds the slot.
pub data Phase : Type 0 where
  exited : Phase
  queued : Phase
  processing : QueueJob → Phase
  returned : Answer → Phase
  answered : Answer → Phase
  waiting : Phase
  delayed : Phase
  woken : Phase

pub record Auto (Q : Type 0) : Type 0 where
  pub core : State Q
  pub counter : ℕ
  pub active : ℕ
  pub active_loop : ℕ
  pub loops : ℕ → Phase
  pub chain : List ℕ
  pub subscribed : Bool
  pub resolver : Option ℕ
  pub notified : Bool
  pub stopping : List ℕ
  pub settled : List Outcome

abbrev pub set_phase : ℕ → Phase → (ℕ → Phase) → ℕ → Phase
set_phase g p loops h = if nat_eq h g then p else loops h

abbrev pub remove_first : ℕ → List ℕ → List ℕ
remove_first g [] = []
remove_first g (h ∷ hs) = if nat_eq h g then hs else h ∷ remove_first g hs

abbrev release_slot : List ℕ → List ℕ
release_slot [] = []
release_slot (g ∷ chain) = chain

abbrev answer_of : Result Error Outcome → Answer
answer_of (ok o) = outcome o
answer_of (throw e) = threw

abbrev wake : Option ℕ → (ℕ → Phase) → ℕ → Phase
wake none loops = loops
wake (some g) loops = set_phase g woken loops

module _ {Q : Type 0} where
  -- `activeGeneration === generation && running`
  abbrev pub is_valid : ℕ → Auto Q → Bool
  is_valid g s = nat_eq s.active g && s.core.running

  -- The loop returns; its `finally` clears `activeLoop` where it is its own.
  abbrev pub exit_loop : ℕ → Auto Q → Auto Q
  exit_loop g s = record s {
    loops = set_phase g exited s.loops;
    active_loop = if nat_eq s.active_loop g then 0 else s.active_loop;
  }

  -- The top of the loop, to the `await` of the slot.
  unfoldable pub iterate : ℕ → Auto Q → Auto Q
  iterate g s =
      if is_valid g s
      then record s { loops = set_phase g queued s.loops; chain = s.chain ++ g ∷ [] }
      else exit_loop g s

  -- `signalWakeup`: without a resolver the signal is remembered.
  unfoldable pub signal_wakeup : Auto Q → Auto Q
  signal_wakeup s = record s {
    loops = wake s.resolver s.loops;
    resolver = none;
    notified = not (is_some s.resolver);
  }

  -- `waitForWakeup` or `fallbackDelay`, to its `await`
  unfoldable pub wait : ℕ → Auto Q → Auto Q
  wait g s =
      if s.subscribed
      then if s.notified
        then record s { loops = set_phase g woken s.loops; notified = false }
        else record s { loops = set_phase g waiting s.loops; resolver = some g }
      else record s { loops = set_phase g delayed s.loops; resolver = some g }

  unfoldable pub resume_idle : ℕ → Auto Q → Auto Q
  unfolding wait
  resume_idle g s = if is_valid g s then wait g s else exit_loop g s

  -- The rest of an iteration, from the answer to the next `await`.
  unfoldable pub resume : ℕ → Answer → Auto Q → Auto Q
  unfolding iterate resume_idle
  resume g invalidated s = exit_loop g s
  resume g threw s = iterate g s
  resume g (outcome idle) s = resume_idle g s
  resume g (outcome (completed job result)) s =
      iterate g (record s { settled = s.settled ++ completed job result ∷ [] })
  resume g (outcome (failed job e)) s =
      iterate g (record s { settled = s.settled ++ failed job e ∷ [] })

  -- Where the timer of `fallbackDelay` fires.
  unfoldable pub fire_timer : ℕ → Auto Q → Auto Q
  fire_timer g s = record s {
    loops = set_phase g woken s.loops;
    resolver = none;
    notified = if is_some s.resolver then false else s.notified;
  }

  unfoldable pub start : Auto Q → Auto Q
  start s = record s { core = record s.core { running = true } }

  unfoldable pub stop : Auto Q → Auto Q
  unfolding signal_wakeup
  stop s =
      record (signal_wakeup (record s { core = record s.core { running = false }; active = 0 })) {
        subscribed = false;
        resolver = none;
        notified = false;
      }

  -- `notifies`: whether the queue has an `onEnqueue`.
  unfoldable pub start_auto : Bool → Auto Q → Auto Q
  unfolding iterate
  start_auto notifies s =
      let generation = suc s.counter in
      let running = record s { core = record s.core { running = true } } in
      if nat_eq s.active 0
      then iterate generation (record running {
        counter = generation;
        active = generation;
        active_loop = generation;
        notified = false;
        subscribed = if s.subscribed then true else notifies;
      })
      else running

  -- The end of `stopAutoProcessing`, after its `await`.
  unfoldable pub finish_stop : Auto Q → Auto Q
  finish_stop s =
      if nat_eq s.active 0
      then record s { subscribed = false; resolver = none; notified = false }
      else s

  -- `stopAutoProcessing`, to its `await` where there is a loop to wait for.
  unfoldable pub stop_auto : Auto Q → Auto Q
  unfolding signal_wakeup finish_stop
  stop_auto s =
      let signalled = signal_wakeup (record s { active = 0 }) in
      if nat_eq s.active_loop 0
      then finish_stop signalled
      else record signalled { stopping = s.active_loop ∷ s.stopping }

  -- An enqueue from outside calls the listener where there is one.
  unfoldable pub enqueue : Q → Auto Q → Auto Q
  unfolding signal_wakeup
  enqueue q s =
      let changed = record s { core = record s.core { queue = q } } in
      if s.subscribed then signal_wakeup changed else changed

module _ {Q : Type 0} (jobs : JobQueue Q) (parse_url : String → Option Url) (max_results : ℕ)
    (notifies : Bool) (put : QueueJob → Q → Q) where
  abbrev pub fetch : ℕ → Option QueueJob × Q → Auto Q → Auto Q
  fetch g (none, q) s = record s {
    core = record s.core { queue = q };
    loops = set_phase g (returned (outcome idle)) s.loops;
  }
  fetch g (some job, q) s = record s {
    core = record s.core { queue = q };
    loops = set_phase g (processing job) s.loops;
  }

  -- The slot is free for the loop: it looks whether it is still valid, and takes a job.
  unfoldable pub take_slot : ℕ → Auto Q → Auto Q
  take_slot g s =
      if is_valid g s
      then fetch g (jobs.dequeue s.core.queue) s
      else record s { loops = set_phase g (returned invalidated) s.loops }

  -- The processor has answered, and the result is stored or the job rejected.
  unfoldable pub finish : ℕ → QueueJob → Result Error VerificationResult → Auto Q → Auto Q
  unfolding settle
  finish g job processed s =
      let after = settle jobs parse_url max_results (λ j. processed) job processed s.core in
      record s { core = after.1; loops = set_phase g (returned (answer_of after.0)) s.loops }

  unfoldable pub release : ℕ → Answer → Auto Q → Auto Q
  release g a s = record s {
    loops = set_phase g (answered a) s.loops;
    chain = release_slot s.chain;
  }

  pub data Step (s : Auto Q) : Auto Q → Type 0 where
    starts : Step s (start s)
    stops : Step s (stop s)
    auto_starts : Step s (start_auto notifies s)
    auto_stops : Step s (stop_auto s)
    stop_ends :
        (g : ℕ)
        → In g s.stopping
        → s.loops g ≡ exited
        → Step s (finish_stop (record s { stopping = remove_first g s.stopping }))
    enqueues : (job : QueueJob) → Step s (enqueue (put job s.core.queue) s)
    takes_slot :
        (g : ℕ) (rest : List ℕ) → s.chain ≡ g ∷ rest → s.loops g ≡ queued → Step s (take_slot g s)
    finishes :
        (g : ℕ) (job : QueueJob) (processed : Result Error VerificationResult)
        → s.loops g ≡ processing job
        → Step s (finish g job processed s)
    releases : (g : ℕ) (a : Answer) → s.loops g ≡ returned a → Step s (release g a s)
    resumes : (g : ℕ) (a : Answer) → s.loops g ≡ answered a → Step s (resume g a s)
    times_out : (g : ℕ) → s.loops g ≡ delayed → Step s (fire_timer g s)
    wakes : (g : ℕ) → s.loops g ≡ woken → Step s (iterate g s)

  pub data Reach (s : Auto Q) : Auto Q → Type 0 where
    here : Reach s s
    next : {t u : Auto Q} → Reach s t → Step t u → Reach s u

module _ {Q : Type 0} where
  -- The runtime before it is started.
  abbrev pub idle_runtime : State Q → Auto Q
  idle_runtime core = record {
    core = core;
    counter = 0;
    active = 0;
    active_loop = 0;
    loops = λ g. exited;
    chain = [];
    subscribed = false;
    resolver = none;
    notified = false;
    stopping = [];
    settled = [];
  }
