-- ===== src/Worker/Runtime/Auto/Slot.antt =====
-- The chain of the processing slot: which loops wait for it and which one holds it.
use verify_agent.Prelude.{
  ℕ, suc, ◌≤◌, ◌<◌, Bool, true, false, ◌||◌, List, [], ◌∷◌, ◌++◌, Option, none, some, nat_eq, ◌≡◌,
  refl, arith, Bool-cases, inl, inr,
}
use verify_agent.Worker.Runtime.Auto.{
  Phase, exited, queued, processing, returned, answered, waiting, delayed, woken, Answer, set_phase,
  release_slot,
}

-- The loop runs a verification operation, or has not yet let go of the slot.
abbrev pub holds : Phase → Bool
holds exited = false
holds queued = false
holds (processing job) = true
holds (returned a) = true
holds (answered a) = false
holds waiting = false
holds delayed = false
holds woken = false

abbrev pub in_chain : Phase → Bool
in_chain exited = false
in_chain queued = true
in_chain (processing job) = true
in_chain (returned a) = true
in_chain (answered a) = false
in_chain waiting = false
in_chain delayed = false
in_chain woken = false

abbrev pub rests : Phase → Bool
rests exited = false
rests queued = false
rests (processing job) = false
rests (returned a) = false
rests (answered a) = false
rests waiting = true
rests delayed = true
rests woken = false

abbrev pub mem : ℕ → List ℕ → Bool
mem g [] = false
mem g (h ∷ hs) = nat_eq g h || mem g hs

abbrev pub Once : List ℕ → Type 0
Once [] = Unit
Once (g ∷ gs) = (mem g gs ≡ false) × Once gs

abbrev pub first : List ℕ → Option ℕ
first [] = none
first (g ∷ gs) = some g

-- The chain holds exactly the loops that wait for the slot or hold it, each once; one that holds it
-- stands first; the resolver is that of a loop that waits; generations to come have no loop.
pub record IsOrdered (loops : ℕ → Phase) (chain : List ℕ) (resolver : Option ℕ) (counter : ℕ)
    : Type 0 where
  pub listed : (g : ℕ) → mem g chain ≡ in_chain (loops g)
  pub once : Once chain
  pub front : (g : ℕ) → holds (loops g) ≡ true → first chain ≡ some g
  pub owner : (g : ℕ) → resolver ≡ some g → rests (loops g) ≡ true
  pub known : (g : ℕ) → counter < g → loops g ≡ exited

mem-append : (g h : ℕ) (hs : List ℕ) → mem g (hs ++ h ∷ []) ≡ (mem g hs || nat_eq g h)
mem-append g h [] = ground arith
mem-append g h (x ∷ hs) = ground (arith, mem-append g h hs)

Once-append : (g : ℕ) (hs : List ℕ) → Once hs → mem g hs ≡ false → Once (hs ++ g ∷ [])
Once-append g [] h e = (refl, tt)
Once-append g (x ∷ hs) (m, h) e =
    (ground (arith, mem-append x g hs), Once-append g hs h (ground arith))

first-append : (g h : ℕ) (hs : List ℕ) → first hs ≡ some g → first (hs ++ h ∷ []) ≡ some g
first-append g h [] e = absurd (ground arith)
first-append g h (x ∷ hs) e = e

-- The loop in front lets go of the slot.
pub released-IsOrdered :
    (loops : ℕ → Phase) (chain : List ℕ) (resolver : Option ℕ) (counter g : ℕ) (a : Answer)
    → IsOrdered loops chain resolver counter
    → holds (loops g) ≡ true
    → rests (loops g) ≡ false
    → IsOrdered (set_phase g (answered a) loops) (release_slot chain) resolver counter
released-IsOrdered loops [] resolver counter g a o k r = absurd (ground (arith, o.front g k))
released-IsOrdered loops (x ∷ rest) resolver counter g a o k r =
    let head : x ≡ g = ground (arith, o.front g k) in
    record {
      listed = λ h. ground (arith, o.listed h, o.once.0);
      once = o.once.1;
      front = λ h e. ground (arith, o.front h);
      owner = λ h e. ground (arith, o.owner h e);
      known = λ h l. ground (arith, o.known h l, o.known g);
    }

module _ (loops : ℕ → Phase) (chain : List ℕ) (resolver : Option ℕ) (counter : ℕ)
    (o : IsOrdered loops chain resolver counter) where
  -- A loop moves on, in the chain or out of it as it was.
  pub moved-IsOrdered :
      (g : ℕ) (p : Phase)
      → g ≤ counter
      → rests (loops g) ≡ false
      → in_chain p ≡ in_chain (loops g)
      → (holds p ≡ true → first chain ≡ some g)
      → IsOrdered (set_phase g p loops) chain resolver counter
  moved-IsOrdered g p seen r c f = record {
    listed = λ h. ground (arith, o.listed h, o.listed g);
    once = o.once;
    front = λ h k. elim (Bool-cases (nat_eq h g)) [
      | inl e ↦ ground (arith, f)
      | inr e ↦ ground (arith, o.front h)
    ];
    owner = λ h e. ground (arith, o.owner h e);
    known = λ h l. ground (arith, o.known h l);
  }

  -- A loop waits for the slot, behind those that do.
  pub joined-IsOrdered :
      (g : ℕ)
      → g ≤ counter
      → rests (loops g) ≡ false
      → in_chain (loops g) ≡ false
      → IsOrdered (set_phase g queued loops) (chain ++ g ∷ []) resolver counter
  joined-IsOrdered g seen r c = record {
    listed = λ h. ground (arith, o.listed h, o.listed g, mem-append h g chain);
    once = Once-append g chain o.once (ground (arith, o.listed g));
    front = λ h k. ground (arith, o.front h, first-append h g chain);
    owner = λ h e. ground (arith, o.owner h e);
    known = λ h l. ground (arith, o.known h l);
  }

  pub cleared-IsOrdered : IsOrdered loops chain none counter
  cleared-IsOrdered = record {
    listed = o.listed;
    once = o.once;
    front = o.front;
    owner = λ h e. absurd (ground arith);
    known = o.known;
  }

  -- A loop goes to rest, as the one that the resolver wakes.
  pub rested-IsOrdered :
      (g : ℕ) (p : Phase)
      → g ≤ counter
      → in_chain (loops g) ≡ false
      → in_chain p ≡ false
      → holds p ≡ false
      → rests p ≡ true
      → IsOrdered (set_phase g p loops) chain (some g) counter
  rested-IsOrdered g p seen c d k r = record {
    listed = λ h. ground (arith, o.listed h, o.listed g);
    once = o.once;
    front = λ h e. ground (arith, o.front h);
    owner = λ h e. ground arith;
    known = λ h l. ground (arith, o.known h l);
  }

  -- A loop at rest is woken, and the resolver is used up.
  pub woken-IsOrdered :
      (g : ℕ) → rests (loops g) ≡ true → IsOrdered (set_phase g woken loops) chain none counter
  woken-IsOrdered g r = record {
    listed = λ h. ground (arith, o.listed h, o.listed g);
    once = o.once;
    front = λ h e. ground (arith, o.front h);
    owner = λ h e. absurd (ground arith);
    known = λ h l. ground (arith, o.known h l, o.known g);
  }

pub grown-IsOrdered :
    (loops : ℕ → Phase) (chain : List ℕ) (resolver : Option ℕ) (counter : ℕ)
    → IsOrdered loops chain resolver counter
    → IsOrdered loops chain resolver (suc counter)
grown-IsOrdered loops chain resolver counter o = record {
  listed = o.listed;
  once = o.once;
  front = o.front;
  owner = o.owner;
  known = λ h l. o.known h (omega arith);
}
