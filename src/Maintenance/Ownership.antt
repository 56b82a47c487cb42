-- ===== src/Maintenance/Ownership.antt =====
-- Who holds the scratch region, and that exactly its holder keeps the histogram off the flash.
use dive_canhead.Base.{
  ℕ, zero, suc, ◌≡◌, ◌≢◌, refl, sym, ◌∙◌, ap, List, [], ◌∷◌, Bool, true, false, ◌&&◌, ◌||◌, ◌==◌,
  inl, inr, Bool-cases, if◌then◌else◌, arith, ltb, subst, ==_iff, replicate, ◌++◌,
}
use dive_canhead.Maintenance.{
  Owner, free, ota, factory, log_index, log_stream, flash, autotune, is_owner, owner_code,
  Maintenance, Outcome, observe, save_work, save_to_nvs, clear, pause, resume, claim, release,
  set_index_building, free_or_same, evictable, store_nvs, take_content,
}

-- The calls of both interfaces. `error_histogram_pause` and `error_histogram_resume` are the arena's.
pub data Call : Type 0 where
  claims releases : Owner → Call
  builds : Bool → Call
  errors : ℕ → Call
  saves clears : Outcome → Call

unfoldable pub after : Maintenance → Call → Maintenance
after s (claims o) = (claim o s).0
after s (releases o) = release o s
after s (builds b) = set_index_building b s
after s (errors code) = observe code s
after s (saves out) = save_work out s
after s (clears out) = (clear out s).0

unfoldable pub after_all : Maintenance → List Call → Maintenance
after_all s [] = s
after_all s (c ∷ cs) = after_all (after s c) cs

abbrev pub held_by : Owner → ℕ
held_by o = if is_owner free o then 0 else 1

-- One hold while the region has an owner, and none otherwise.
abbrev pub IsHeld : Maintenance → Type 0
IsHeld s = s.save_pause_depth ≡ held_by s.owner

-- What the calls of the histogram leave alone.
abbrev SameArena : Maintenance → Maintenance → Type 0
SameArena s s' =
    (s'.owner ≡ s.owner)
    × (s'.content_owner ≡ s.content_owner)
    × (s'.generation ≡ s.generation)
    × (s'.log_index_building ≡ s.log_index_building)
    × (s'.save_pause_depth ≡ s.save_pause_depth)

pub observe-SameArena : (code : ℕ) (s : Maintenance) → SameArena s (observe code s)
unfolding observe
observe-SameArena code s = elim (Bool-cases (ltb code 38)) [
  | inl e ↦ rw e (refl, refl, refl, refl, refl)
  | inr e ↦ rw e (refl, refl, refl, refl, refl)
]

store-SameArena :
    (buf : List ℕ) (out : Outcome) (s : Maintenance) → SameArena s (store_nvs buf out s)
store-SameArena buf out s = elim (Bool-cases (out.rc == 0)) [
  | inl e ↦ rw e (refl, refl, refl, refl, refl)
  | inr e ↦ elim (Bool-cases out.reported) [
    | inl r ↦ rw (e, r) (observe-SameArena 7 (record s { writes = s.writes ++ (buf, out.rc) ∷ [] }))
    | inr r ↦ rw (e, r) (refl, refl, refl, refl, refl)
  ]
]

pub save_work-SameArena : (out : Outcome) (s : Maintenance) → SameArena s (save_work out s)
unfolding save_work save_to_nvs
save_work-SameArena out s = elim (Bool-cases (s.save_pause_depth == 0 && s.dirty)) [
  | inr e ↦ rw e (refl, refl, refl, refl, refl)
  | inl e ↦ rw e (store-SameArena _ out s)
]

pub clear-SameArena : (out : Outcome) (s : Maintenance) → SameArena s (clear out s).0
unfolding clear
clear-SameArena out s = store-SameArena _ out (record s { histogram = replicate 38 0 })

-- Each claim.
claim-IsHeld : (o : Owner) (s : Maintenance) → IsHeld s → IsHeld (claim o s).0
unfolding claim free_or_same pause take_content
claim-IsHeld o s h = ground arith

release-IsHeld : (o : Owner) (s : Maintenance) → IsHeld s → IsHeld (release o s)
unfolding release resume
release-IsHeld o s h = ground arith

after-IsHeld : (s : Maintenance) (c : Call) → IsHeld s → IsHeld (after s c)
unfolding after set_index_building
after-IsHeld s (claims o) h = claim-IsHeld o s h
after-IsHeld s (releases o) h = release-IsHeld o s h
after-IsHeld s (builds b) h = h
after-IsHeld s (errors code) h = let k = observe-SameArena code s in k.4 ∙ h ∙ ap held_by (sym k.0)
after-IsHeld s (saves out) h = let k = save_work-SameArena out s in k.4 ∙ h ∙ ap held_by (sym k.0)
after-IsHeld s (clears out) h = let k = clear-SameArena out s in k.4 ∙ h ∙ ap held_by (sym k.0)

-- Every history of calls from a state that is held as its owner says, such as the one at reset,
-- keeps the hold of the histogram balanced: its depth is 1 while the region is owned and 0 while
-- it is free.
pub arena_history-IsHeld : (s : Maintenance) (cs : List Call) → IsHeld s → IsHeld (after_all s cs)
unfolding after_all
arena_history-IsHeld s [] h = h
arena_history-IsHeld s (c ∷ cs) h = arena_history-IsHeld (after s c) cs (after-IsHeld s c h)

abbrev owner_of : ℕ → Owner
owner_of zero = free
owner_of (suc zero) = ota
owner_of (suc (suc zero)) = factory
owner_of (suc (suc (suc zero))) = log_index
owner_of (suc (suc (suc (suc zero)))) = log_stream
owner_of (suc (suc (suc (suc (suc zero))))) = flash
owner_of (suc (suc (suc (suc (suc (suc n)))))) = autotune

owner_of-code : (o : Owner) → owner_of (owner_code o) ≡ o
owner_of-code free = refl
owner_of-code ota = refl
owner_of-code factory = refl
owner_of-code log_index = refl
owner_of-code log_stream = refl
owner_of-code flash = refl
owner_of-code autotune = refl

is_owner→≡ : (a b : Owner) → is_owner a b ≡ true → a ≡ b
is_owner→≡ a b h =
    sym (owner_of-code a)
    ∙ ap owner_of ((==_iff (owner_code a) (owner_code b)).0 h)
    ∙ owner_of-code b

-- An owner that no claim of another displaces.
abbrev pub IsExclusive : Owner → Type 0
IsExclusive o = (owner_code o ≢ 0) × (owner_code o ≢ 3)

-- A call other than a release by the owner, and than the clearing of the histogram.
unfoldable pub Allows : Owner → Call → Type 0
Allows o (releases o') = owner_code o' ≢ owner_code o
Allows o (clears out) = true ≡ false
Allows o _ = Unit

unfoldable pub AllAllow : Owner → List Call → Type 0
AllAllow o [] = Unit
AllAllow o (c ∷ cs) = Allows o c × AllAllow o cs

-- The owner of the region, and what was written to NVS, are as before.
abbrev pub Undisturbed : Maintenance → Maintenance → Type 0
Undisturbed s s' = (s'.owner ≡ s.owner) × (s'.writes ≡ s.writes)

claim-writes : (o : Owner) (s : Maintenance) → (claim o s).0.writes ≡ s.writes
unfolding claim take_content pause
claim-writes o s = ground arith

granted_is_owner :
    (o : Owner) (s : Maintenance)
    → IsExclusive s.owner
    → free_or_same o s || evictable o s ≡ true
    → is_owner o s.owner ≡ true
unfolding free_or_same evictable
granted_is_owner o s x h = ground arith

pub claim-Undisturbed :
    (o : Owner) (s : Maintenance) → IsExclusive s.owner → Undisturbed s (claim o s).0
unfolding claim
claim-Undisturbed o s x = elim (Bool-cases (is_owner free o)) [
  | inl e ↦ rw e (refl, refl)
  | inr e ↦ elim (Bool-cases (free_or_same o s || evictable o s)) [
    | inl g ↦ (rw (e, g) (is_owner→≡ o s.owner (granted_is_owner o s x g)), claim-writes o s)
    | inr g ↦ rw (e, g) (refl, refl)
  ]
]

save-Undisturbed :
    (out : Outcome) (s : Maintenance)
    → IsHeld s
    → IsExclusive s.owner
    → Undisturbed s (save_work out s)
unfolding save_work
save-Undisturbed out s h x =
    let held : s.save_pause_depth == 0 ≡ false = ground arith in rw held (refl, refl)

observe-Undisturbed : (code : ℕ) (s : Maintenance) → Undisturbed s (observe code s)
unfolding observe
observe-Undisturbed code s = elim (Bool-cases (ltb code 38)) [
  | inl e ↦ rw e (refl, refl)
  | inr e ↦ rw e (refl, refl)
]

release-Undisturbed :
    (o : Owner) (s : Maintenance) → owner_code o ≢ owner_code s.owner → Undisturbed s (release o s)
unfolding release
release-Undisturbed o s ne =
    let other : is_owner o s.owner ≡ false = ground arith in rw other (refl, refl)

after-Undisturbed :
    (s : Maintenance) (c : Call)
    → IsHeld s
    → IsExclusive s.owner
    → Allows s.owner c
    → Undisturbed s (after s c)
unfolding after Allows set_index_building
after-Undisturbed s (claims o) h x a = claim-Undisturbed o s x
after-Undisturbed s (releases o) h x a = release-Undisturbed o s a
after-Undisturbed s (builds b) h x a = (refl, refl)
after-Undisturbed s (errors code) h x a = observe-Undisturbed code s
after-Undisturbed s (saves out) h x a = save-Undisturbed out s h x
after-Undisturbed s (clears out) h x a = cc

-- While an owner other than the log-index cache holds the region, whatever calls are made
-- but its own release and a clearing of the histogram leave it the owner, and write nothing to NVS.
pub exclusive_owner_stays :
    (s : Maintenance) (cs : List Call)
    → IsHeld s
    → IsExclusive s.owner
    → AllAllow s.owner cs
    → Undisturbed s (after_all s cs)
unfolding after_all AllAllow
exclusive_owner_stays s [] h x a = (refl, refl)
exclusive_owner_stays s (c ∷ cs) h x (a, more) =
    let u = after-Undisturbed s c h x a in
    let rest =
      exclusive_owner_stays (after s c) cs (after-IsHeld s c h) (subst IsExclusive (sym u.0) x)
        (subst (λ o. AllAllow o cs) (sym u.0) more) in
    (rest.0 ∙ u.0, rest.1 ∙ u.1)
