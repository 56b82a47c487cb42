-- ===== src/Maintenance/Content.antt =====
-- The generation counter tells a tenant of the scratch region whether its contents are still its own.
use dive_canhead.Base.{
  ℕ, ◌+◌, ◌%◌, ◌^◌, ◌≤◌, ◌<◌, ◌≡◌, refl, ◌∙◌, List, [], ◌∷◌, not, ◌&&◌, ◌||◌, inl, inr, Bool-cases,
  arith, length,
}
use dive_canhead.Maintenance.{
  Owner, free, is_owner, Maintenance, observe, save_work, clear, pause, resume, claim, release,
  set_index_building, free_or_same, evictable, take_content, owner_writes_scratch,
}
use dive_canhead.Maintenance.Ownership.{
  Call, claims, releases, builds, errors, saves, clears, after, after_all, observe-SameArena,
  save_work-SameArena, clear-SameArena,
}

-- From `s` to `s'` the contents passed to another tenant `k` times.
abbrev Passes : ℕ → Maintenance → Maintenance → Type 0
Passes k s s' =
    (s'.generation ≡ (s.generation + k) % 2 ^ 32) × (k ≡ 0 → s'.content_owner ≡ s.content_owner)

Passes-none :
    (s s' : Maintenance)
    → s.generation < 2 ^ 32
    → s'.generation ≡ s.generation
    → s'.content_owner ≡ s.content_owner
    → (k : ℕ) × (k ≤ 1) × Passes k s s'
Passes-none s s' w g c = (0, omega arith, (omega arith, λ z. c))

take-Passes :
    (o : Owner) (s : Maintenance)
    → s.generation < 2 ^ 32
    → (k : ℕ) × (k ≤ 1) × Passes k s (take_content o s)
unfolding take_content
take-Passes o s w = elim (Bool-cases (owner_writes_scratch o && not (is_owner o s.content_owner))) [
  | inl e ↦ rw e (1, omega arith, (refl, λ z. absurd (omega arith)))
  | inr e ↦ rw e (0, omega arith, (omega arith, λ z. refl))
]

claim-Passes :
    (o : Owner) (s : Maintenance)
    → s.generation < 2 ^ 32
    → (k : ℕ) × (k ≤ 1) × Passes k s (claim o s).0
unfolding claim pause
claim-Passes o s w = elim (Bool-cases (is_owner free o)) [
  | inl e ↦ rw e (Passes-none s s w refl refl)
  | inr e ↦ elim (Bool-cases (free_or_same o s || evictable o s)) [
    | inr g ↦ rw (e, g) (Passes-none s s w refl refl)
    | inl g ↦ elim (Bool-cases (is_owner free s.owner)) [
      | inl f ↦ rw (e, g, f) (take-Passes o (pause s) w)
      | inr f ↦ rw (e, g, f) (take-Passes o s w)
    ]
  ]
]

release-Passes :
    (o : Owner) (s : Maintenance)
    → s.generation < 2 ^ 32
    → (k : ℕ) × (k ≤ 1) × Passes k s (release o s)
unfolding release resume
release-Passes o s w = Passes-none s (release o s) w (ground arith) (ground arith)

after-Passes :
    (s : Maintenance) (c : Call)
    → s.generation < 2 ^ 32
    → (k : ℕ) × (k ≤ 1) × Passes k s (after s c)
unfolding after set_index_building
after-Passes s (claims o) w = claim-Passes o s w
after-Passes s (releases o) w = release-Passes o s w
after-Passes s (builds b) w = Passes-none s (set_index_building b s) w refl refl
after-Passes s (errors code) w =
    let k = observe-SameArena code s in Passes-none s (observe code s) w k.2 k.1
after-Passes s (saves out) w =
    let k = save_work-SameArena out s in Passes-none s (save_work out s) w k.2 k.1
after-Passes s (clears out) w =
    let k = clear-SameArena out s in Passes-none s (clear out s).0 w k.2 k.1

g-bound : (n g : ℕ) → g ≡ n % 2 ^ 32 → g < 2 ^ 32
g-bound n g e = omega arith

after_all-Passes :
    (s : Maintenance) (cs : List Call)
    → s.generation < 2 ^ 32
    → (k : ℕ) × (k ≤ length cs) × Passes k s (after_all s cs)
unfolding after_all
after_all-Passes s [] w = (0, omega arith, (omega arith, λ z. refl))
after_all-Passes s (c ∷ cs) w =
    let (k, few, (g, same)) = after-Passes s c w in
    let (j, more, (g', same')) = after_all-Passes (after s c) cs (g-bound (s.generation + k) _ g) in
    (j + k, omega arith, (omega arith, λ z. same' (omega arith) ∙ same (omega arith)))

-- A tenant that finds the generation as it left it, after fewer than 2^32 calls of any kind, finds
-- that the contents of the region belong to the same tenant as before.
pub same_generation_same_content :
    (s : Maintenance) (cs : List Call)
    → s.generation < 2 ^ 32
    → length cs < 2 ^ 32
    → (after_all s cs).generation ≡ s.generation
    → (after_all s cs).content_owner ≡ s.content_owner
same_generation_same_content s cs w few same =
    let p = after_all-Passes s cs w in p.2.1 (omega arith)
