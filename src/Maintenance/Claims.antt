-- ===== src/Maintenance/Claims.antt =====
-- What a single claim and a single release do to the owner of the scratch region.
use dive_canhead.Base.{◌≡◌, ◌≢◌, ◌⊎◌, refl, true, false, ◌||◌, inl, inr, Bool-cases, arith}
use dive_canhead.Maintenance.{
  Owner, free, is_owner, owner_code, Maintenance, claim, release, resume, free_or_same, evictable,
}

-- A claim for an owner is granted and makes it the owner, or changes nothing.
pub claim-cases :
    (o : Owner) (s : Maintenance)
    → ((claim o s).1 ≡ true) × ((claim o s).0.owner ≡ o)
      ⊎ ((claim o s).1 ≡ false) × ((claim o s).0 ≡ s)
unfolding claim
claim-cases o s = elim (Bool-cases (is_owner free o)) [
  | inl e ↦ rw e (inr (refl, refl))
  | inr e ↦ elim (Bool-cases (free_or_same o s || evictable o s)) [
    | inl g ↦ rw (e, g) (inl (refl, refl))
    | inr g ↦ rw (e, g) (inr (refl, refl))
  ]
]

-- A release by the owner frees the region.
pub release-free : (o : Owner) (s : Maintenance) → s.owner ≡ o → (release o s).owner ≡ free
unfolding release resume
release-free o s e = ground arith

-- A release by another changes nothing.
pub release-other :
    (o : Owner) (s : Maintenance) → owner_code s.owner ≢ owner_code o → release o s ≡ s
unfolding release
release-other o s ne = let other : is_owner o s.owner ≡ false = ground arith in rw other refl
