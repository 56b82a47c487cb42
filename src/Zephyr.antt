-- ===== src/Zephyr.antt =====
-- The services of the Zephyr kernel that the firmware calls: the state-machine framework
-- (`smf_set_state`, `smf_set_initial`, `smf_run_state`), message queues (`k_msgq_put`, `k_msgq_get`) and the uptime
-- clock. Their code is not in the repository, so they are a parameter, with their documented
-- behaviour as hypotheses. `model` is the implementation that those hypotheses describe.
use dive_canhead.Base.{
  ℕ, ◌<◌, ◌^◌, ◌≡◌, refl, List, [], ◌∷◌, ◌++◌, Option, none, some, length, ltb, subst, sym,
  if◌then◌else◌,
}

-- `S` names the states of a machine and `C` is the object that carries it. `set_state` takes the
-- write of `ctx->current` and the entry action of each state, `run_state` the read of
-- `ctx->current` and the run action of each state.
pub record Kernel : Type 1 where
  pub set_state : (S C : Type 0) → (S → C → C) → (S → C → C) → S → C → C
  -- `smf_set_state` for a table with exit actions: the exit action stands third.
  pub change_state : (S C : Type 0) → (C → S) → (S → C → C) → (S → C → C) → (S → C → C) → S → C → C
  pub set_initial : (S C : Type 0) → (S → C → C) → (S → C → C) → S → C → C
  pub run_state : (S C : Type 0) → (C → S) → (S → C → C) → C → C
  -- A queue of at most so many messages, oldest first; `none` is a failed call with K_NO_WAIT.
  pub msgq_put : (A : Type 0) → ℕ → A → List A → Option (List A)
  pub msgq_get : (A : Type 0) → List A → Option (A × List A)
  -- What the n-th call of `k_uptime_get_32` returns.
  pub uptime : ℕ → ℕ

-- What the Zephyr documentation says of these calls, `set_state` for states with no exit action.
pub record IsKernel (k : Kernel) : Type 1 where
  pub set_state_enters :
      (S C : Type 0) (store entry : S → C → C) (s : S) (c : C)
      → k.set_state S C store entry s c ≡ entry s (store s c)
  pub change_state_leaves :
      (S C : Type 0) (current : C → S) (leave store entry : S → C → C) (s : S) (c : C)
      → k.change_state S C current leave store entry s c ≡ entry s (store s (leave (current c) c))
  pub set_initial_enters :
      (S C : Type 0) (store entry : S → C → C) (s : S) (c : C)
      → k.set_initial S C store entry s c ≡ entry s (store s c)
  pub run_state_runs :
      (S C : Type 0) (current : C → S) (run : S → C → C) (c : C)
      → k.run_state S C current run c ≡ run (current c) c
  pub put_appends :
      (A : Type 0) (cap : ℕ) (a : A) (q : List A)
      → k.msgq_put A cap a q ≡ (if ltb (length q) cap then some (q ++ a ∷ []) else none)
  pub get_empty : (A : Type 0) → k.msgq_get A [] ≡ none
  pub get_oldest : (A : Type 0) (a : A) (q : List A) → k.msgq_get A (a ∷ q) ≡ some (a, q)
  pub uptime_32 : (n : ℕ) → k.uptime n < 2 ^ 32

abbrev pop {ℓ} : {A : Type ℓ} → List A → Option (A × List A)
pop [] = none
pop (a ∷ q) = some (a, q)

abbrev pub model : (ℕ → ℕ) → Kernel
model clock = record {
  set_state = λ S C store entry s c. entry s (store s c);
  change_state = λ S C current leave store entry s c. entry s (store s (leave (current c) c));
  set_initial = λ S C store entry s c. entry s (store s c);
  run_state = λ S C current run c. run (current c) c;
  msgq_put = λ A cap a q. if ltb (length q) cap then some (q ++ a ∷ []) else none;
  msgq_get = λ A q. pop q;
  uptime = clock;
}

get-eq : (k : Kernel) → IsKernel k → (A : Type 0) (q : List A) → k.msgq_get A q ≡ pop q
get-eq k h A [] = h.get_empty A
get-eq k h A (a ∷ q) = h.get_oldest A a q

-- The documented behaviour determines each service but the clock.
pub Kernel-eq : (k : Kernel) → IsKernel k → k ≡ model k.uptime
Kernel-eq k h = λ i. record {
  set_state = λ S C store entry s c. h.set_state_enters S C store entry s c i;
  change_state = λ S C current leave store entry s c.
      h.change_state_leaves S C current leave store entry s c i;
  set_initial = λ S C store entry s c. h.set_initial_enters S C store entry s c i;
  run_state = λ S C current run c. h.run_state_runs S C current run c i;
  msgq_put = λ A cap a q. h.put_appends A cap a q i;
  msgq_get = λ A q. get-eq k h A q i;
  uptime = k.uptime;
}

-- A property of the model, for every clock of 32 bits, is one of every kernel.
pub for_kernel :
    (P : Kernel → Type 0)
    → ((clock : ℕ → ℕ) → ((n : ℕ) → clock n < 2 ^ 32) → P (model clock))
    → (k : Kernel) → IsKernel k
    → P k
for_kernel P prove k h = subst P (sym (Kernel-eq k h)) (prove k.uptime h.uptime_32)

pub model-IsKernel : (clock : ℕ → ℕ) → ((n : ℕ) → clock n < 2 ^ 32) → IsKernel (model clock)
model-IsKernel clock small = record {
  set_state_enters = λ S C store entry s c. refl;
  change_state_leaves = λ S C current leave store entry s c. refl;
  set_initial_enters = λ S C store entry s c. refl;
  run_state_runs = λ S C current run c. refl;
  put_appends = λ A cap a q. refl;
  get_empty = λ A. refl;
  get_oldest = λ A a q. refl;
  uptime_32 = small;
}
