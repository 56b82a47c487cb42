-- ===== src/Settings/Menu/Order.antt =====
-- The menu lists every setting once.
use dive_canhead.Base.{
  ℕ, zero, suc, ◌+◌, ◌≤◌, ◌<◌, ◌≡◌, ◌≢◌, ◌⊎◌, ℕ_discrete, dec_lt, refl, ap, sym, ◌∙◌, inl, inr,
  true, false, Option, none, some, List, [], ◌∷◌, ◌++◌, length, get_or, ltb, leb, ◌==◌,
  if◌then◌else◌, arith, Bool-cases, either, else_branch, then_branch, lt→ltb, le→ltb,
}
use dive_canhead.Settings.{Build, is_listed}
use dive_canhead.Settings.Menu.{
  setting_count, add_new, curate, append_rest, compute_menu_order, menu_to_storage,
}

abbrev pub occurrences : ℕ → List ℕ → ℕ
occurrences v [] = 0
occurrences v (x ∷ xs) = (if x == v then 1 else 0) + occurrences v xs

occurrences-append :
    (v : ℕ) (xs ys : List ℕ) → occurrences v (xs ++ ys) ≡ occurrences v xs + occurrences v ys
occurrences-append v [] ys = omega arith
occurrences-append v (x ∷ xs) ys = omega (arith, occurrences-append v xs ys)

is_listed-true : (v : ℕ) (xs : List ℕ) → is_listed true v xs ≡ true
is_listed-true v [] = refl
is_listed-true v (x ∷ xs) =
    either (λ f. is_listed f v xs ≡ true) (x == v) true true (is_listed-true v xs)
      (is_listed-true v xs)

-- The search of the code finds what occurs.
is_listed_lem :
    (v : ℕ) (xs : List ℕ) → is_listed false v xs ≡ (if occurrences v xs == 0 then false else true)
is_listed_lem v [] = refl
is_listed_lem v (x ∷ xs) = elim (Bool-cases (x == v)) [
  | inl e ↦ rw (e, is_listed-true v xs) (ground arith)
  | inr e ↦
      let none_here : 0 + occurrences v xs ≡ occurrences v xs = omega arith in
      rw (e, none_here) (is_listed_lem v xs)
]

-- Adding a setting puts it there once, and changes nothing else.
add_new_self : (s : ℕ) (out : List ℕ) → occurrences s out ≤ 1 → occurrences s (add_new s out) ≡ 1
add_new_self s out h = rw (is_listed_lem s out) (ground (arith, occurrences-append s out (s ∷ [])))

add_new_other : (v s : ℕ) (out : List ℕ) → v ≢ s → occurrences v (add_new s out) ≡ occurrences v out
add_new_other v s out ne =
    either (λ o. occurrences v o ≡ occurrences v out) (is_listed false s out) _ _ refl
      (ground (arith, occurrences-append v out (s ∷ [])))

-- A part of a menu: each setting at most once, and none from `n` on
pub record Once (n : ℕ) (out : List ℕ) : Type 0 where
  pub at_most_once : (v : ℕ) → occurrences v out ≤ 1
  pub in_range : (v : ℕ) → n ≤ v → occurrences v out ≡ 0

add_new-Once : (n s : ℕ) (out : List ℕ) → s < n → Once n out → Once n (add_new s out)
add_new-Once n s out small h = record {
  at_most_once = λ v. elim (ℕ_discrete v s) [
    | yes e ↦ rw e (omega (arith, add_new_self s out (h.at_most_once s)))
    | no ne ↦ omega (arith, add_new_other v s out ne, h.at_most_once v)
  ];
  in_range = λ v big. add_new_other v s out (λ e. omega (arith, e)) ∙ h.in_range v big;
}

curate-Once :
    (n : ℕ) (cfg : List (Option ℕ)) (out : List ℕ) → Once n out → Once n (curate n cfg out)
curate-Once n [] out h = h
curate-Once n (none ∷ cfg) out h = curate-Once n cfg out h
curate-Once n (some s ∷ cfg) out h = curate-Once n cfg _ (elim (Bool-cases (leb n s)) [
  | inl e ↦ then_branch (Once n) (leb n s) out (add_new s out) e h
  | inr e ↦
      else_branch (Once n) (leb n s) out (add_new s out) e (add_new-Once n s out (ground arith) h)
])

append_rest_other :
    (left s v : ℕ) (out : List ℕ)
    → (v < s) ⊎ (s + left ≤ v)
    → occurrences v (append_rest left s out) ≡ occurrences v out
append_rest_other zero s v out h = refl
append_rest_other (suc left) s v out h =
    append_rest_other left (suc s) v (add_new s out) (ground arith)
    ∙ add_new_other v s out (λ e. ground arith)

append_rest_covers :
    (left s v : ℕ) (out : List ℕ)
    → occurrences v out ≤ 1
    → s ≤ v
    → v < s + left
    → occurrences v (append_rest left s out) ≡ 1
append_rest_covers zero s v out h low high = absurd (omega arith)
append_rest_covers (suc left) s v out h low high = elim (ℕ_discrete v s) [
  | yes e ↦
      append_rest_other left (suc s) v (add_new s out) (inl (omega (arith, e)))
      ∙ rw e (add_new_self s out (rw (← e) h))
  | no ne ↦
      append_rest_covers left (suc s) v (add_new s out) (omega (arith, add_new_other v s out ne))
        (omega (arith, ne)) (omega arith)
]

menu-occurrences :
    (cfg : List (Option ℕ)) (n v : ℕ)
    → occurrences v (compute_menu_order cfg n) ≡ (if ltb v n then 1 else 0)
unfolding compute_menu_order
menu-occurrences cfg n v =
    let begin : Once n [] = record { at_most_once = λ v. omega arith; in_range = λ v h. refl } in
    let first = curate-Once n cfg [] begin in
    elim (Bool-cases (ltb v n)) [
      | inl e ↦ rw e (
          append_rest_covers n 0 v (curate n cfg []) (first.at_most_once v) (omega arith)
            (ground arith))
      | inr e ↦ rw e (
          append_rest_other n 0 v (curate n cfg []) (inr (ground arith))
          ∙ first.in_range v (ground arith))
    ]

abbrev remove : ℕ → List ℕ → List ℕ
remove v [] = []
remove v (x ∷ xs) = if x == v then remove v xs else x ∷ remove v xs

length-remove : (v : ℕ) (xs : List ℕ) → length (remove v xs) + occurrences v xs ≡ length xs
length-remove v [] = omega arith
length-remove v (x ∷ xs) = ground (arith, length-remove v xs)

occurrences-remove :
    (w v : ℕ) (xs : List ℕ) → occurrences w (remove v xs) ≡ (if w == v then 0 else occurrences w xs)
occurrences-remove w v [] = either (λ o. 0 ≡ o) (w == v) 0 0 refl refl
occurrences-remove w v (x ∷ xs) = ground (arith, occurrences-remove w v xs)

-- A list that has each number below `n` once has `n` entries.
length-occurrences :
    (n : ℕ) (xs : List ℕ)
    → ((v : ℕ) → occurrences v xs ≡ (if ltb v n then 1 else 0))
    → length xs ≡ n
length-occurrences zero [] h = refl
length-occurrences zero (x ∷ xs) h = absurd (ground (arith, h x))
length-occurrences (suc n) xs h =
    let rest =
      length-occurrences n (remove n xs) (λ v. occurrences-remove v n xs ∙ ground (arith, h v)) in
    let last : occurrences n xs ≡ 1 = h n ∙ ground arith in
    omega (arith, rest, last, length-remove n xs)

-- Whatever the configured slots, the menu that is built for `n` settings has `n` entries, and each
-- setting below `n` is in it exactly once.
pub menu_lists_every_setting :
    (cfg : List (Option ℕ)) (n : ℕ)
    → (length (compute_menu_order cfg n) ≡ n)
      × ((v : ℕ) → occurrences v (compute_menu_order cfg n) ≡ (if ltb v n then 1 else 0))
menu_lists_every_setting cfg n = (
  length-occurrences n (compute_menu_order cfg n) (menu-occurrences cfg n),
  menu-occurrences cfg n,
)

occurs_at : (xs : List ℕ) (i d : ℕ) → i < length xs → 1 ≤ occurrences (get_or xs i d) xs
occurs_at [] i d h = absurd (omega arith)
occurs_at (x ∷ xs) zero d h = ground arith
occurs_at (x ∷ xs) (suc i) d h = omega (arith, occurs_at xs i d (omega arith))

-- In a list without repetition an entry determines its position.
same_position :
    (xs : List ℕ) (i j d : ℕ)
    → ((v : ℕ) → occurrences v xs ≤ 1)
    → i < length xs
    → j < length xs
    → get_or xs i d ≡ get_or xs j d
    → i ≡ j
same_position [] i j d once hi hj e = absurd (omega arith)
same_position (x ∷ xs) zero zero d once hi hj e = refl
same_position (x ∷ xs) zero (suc j) d once hi hj e =
    absurd (ground (arith, occurs_at xs j d (omega arith), once x))
same_position (x ∷ xs) (suc i) zero d once hi hj e =
    absurd (ground (arith, occurs_at xs i d (omega arith), once x))
same_position (x ∷ xs) (suc i) (suc j) d once hi hj e =
    ap suc (same_position xs i j d (λ v. omega (arith, once v)) (omega arith) (omega arith) e)

module _ (b : Build) where
  abbrev menu : List ℕ
  menu = compute_menu_order b.menu_slots setting_count

  menu_entry : (i : ℕ) → i < setting_count → menu_to_storage b i ≡ get_or menu i setting_count
  unfolding menu_to_storage
  menu_entry i h =
      then_branch (λ o. o ≡ get_or menu i setting_count) (ltb i (length menu)) _ _
        (lt→ltb i _ (omega (arith, (menu_lists_every_setting b.menu_slots setting_count).0))) refl

  no_entry : (i : ℕ) → setting_count ≤ i → menu_to_storage b i ≡ setting_count
  unfolding menu_to_storage
  no_entry i h =
      else_branch (λ o. o ≡ setting_count) (ltb i (length menu)) _ _
        (le→ltb i _ (omega (arith, (menu_lists_every_setting b.menu_slots setting_count).0))) refl

  -- Two entries of the menu are two settings.
  same_entry :
      (i j : ℕ)
      → i < setting_count
      → j < setting_count
      → menu_to_storage b i ≡ menu_to_storage b j
      → i ≡ j
  same_entry i j hi hj e =
      let (size, once) = menu_lists_every_setting b.menu_slots setting_count in
      same_position menu i j setting_count (λ v. ground (arith, once v)) (omega (arith, size))
        (omega (arith, size)) (sym (menu_entry i hi) ∙ e ∙ menu_entry j hj)

  -- An index beyond the menu selects nothing, so two indices of one setting are the same index.
  pub same_storage :
      (i j : ℕ)
      → menu_to_storage b i < setting_count
      → menu_to_storage b i ≡ menu_to_storage b j
      → i ≡ j
  same_storage i j h e = elim (dec_lt i setting_count) [
    | no p ↦ absurd (omega (arith, no_entry i (omega (arith, p))))
    | yes p ↦ elim (dec_lt j setting_count) [
      | yes q ↦ same_entry i j p q e
      | no q ↦ absurd (omega (arith, no_entry j (omega (arith, q)), e))
    ]
  ]

  pub storage_bound : (i : ℕ) → menu_to_storage b i ≤ setting_count
  storage_bound i = elim (dec_lt i setting_count) [
    | no p ↦ omega (arith, no_entry i (omega (arith, p)))
    | yes p ↦
        let (size, once) = menu_lists_every_setting b.menu_slots setting_count in
        let v = get_or menu i setting_count in
        ground (arith, menu_entry i p, once v, occurs_at menu i setting_count (omega (arith, size)))
  ]
