-- ===== src/BootHistory/Newest.antt =====
-- A ring of records, seen from outside: the newest five, the newest first.
use dive_canhead.Base.{
  true, ℕ, zero, suc, ◌+◌, ◌-◌, ◌≤◌, ◌≡◌, refl, sym, ◌∙◌, ap, List, [], ◌∷◌, length, take, drop,
  length-take, length-drop, length-set, length-blit, ltb→lt, get_or, ltb, arith, Bool-cases, inl,
  inr,
}
use dive_canhead.BootHistory.{Ring, append, copy_out, get_newest}

module _ {A : Type 0} (d : A) where
  -- The first `n` of an array, the last one first.
  abbrev pub newest : List A → ℕ → List A
  newest records zero = []
  newest records (suc n) = get_or records n d ∷ newest records n

  take-shorter : (n m : ℕ) (xs : List A) → n ≤ m → take n (take m xs) ≡ take n xs
  take-shorter zero m xs h = refl
  take-shorter (suc n) zero xs h = absurd (omega arith)
  take-shorter (suc n) (suc m) [] h = refl
  take-shorter (suc n) (suc m) (x ∷ xs) h = ap (λ ys. x ∷ ys) (take-shorter n m xs (omega arith))

  take-suc_same :
      (n : ℕ) (xs ys : List A) → take (suc n) xs ≡ take (suc n) ys → take n xs ≡ take n ys
  take-suc_same n xs ys e =
      sym (take-shorter n (suc n) xs (omega arith))
      ∙ ap (take n) e
      ∙ take-shorter n (suc n) ys (omega arith)

  cons-take : (r : A) (xs ys : List A) → take 5 xs ≡ take 5 ys → take 5 (r ∷ xs) ≡ take 5 (r ∷ ys)
  cons-take r xs ys e = ap (λ zs. r ∷ zs) (take-suc_same 4 xs ys e)

  -- A ring as the two stores have it.
  abbrev pub IsRing : Ring A → Type 0
  IsRing ring = (length ring.records ≡ 5) × (ring.count ≤ 5)

  view : Ring A → List A
  view ring = newest ring.records ring.count

  copy_out-newest :
      (ring : Ring A) (n i : ℕ)
      → n + i ≤ ring.count
      → copy_out d ring n i ≡ take n (newest ring.records (ring.count - i))
  unfolding copy_out
  copy_out-newest ring zero i h = refl
  copy_out-newest ring (suc n) i h =
      let e : ring.count - i ≡ suc (ring.count - 1 - i) = omega arith in
      let e' : ring.count - suc i ≡ ring.count - 1 - i = omega arith in
      rw (e, copy_out-newest ring n (suc i) (omega arith), e') refl

  -- Five cells: each count is a computation.
  append-newest :
      (a b c e f r : A) (n : ℕ)
      → n ≤ 5
      → let ring : Ring A = record { count = n; records = a ∷ b ∷ c ∷ e ∷ f ∷ [] } in
        view (append r ring) ≡ take 5 (r ∷ view ring)
  unfolding append view
  append-newest a b c e f r zero h = refl
  append-newest a b c e f r (suc zero) h = refl
  append-newest a b c e f r (suc (suc zero)) h = refl
  append-newest a b c e f r (suc (suc (suc zero))) h = refl
  append-newest a b c e f r (suc (suc (suc (suc zero)))) h = refl
  append-newest a b c e f r (suc (suc (suc (suc (suc zero))))) h = refl
  append-newest a b c e f r (suc (suc (suc (suc (suc (suc n)))))) h = absurd (omega arith)

  cells :
      (records : List A) (n : ℕ) (r : A)
      → length records ≡ 5
      → n ≤ 5
      → let ring : Ring A = record { count = n; records = records } in
        view (append r ring) ≡ take 5 (r ∷ view ring)
  cells (a ∷ b ∷ c ∷ e ∷ f ∷ []) n r len h = append-newest a b c e f r n h
  cells [] n r len h = absurd (omega arith)
  cells (a ∷ []) n r len h = absurd (omega arith)
  cells (a ∷ b ∷ []) n r len h = absurd (omega arith)
  cells (a ∷ b ∷ c ∷ []) n r len h = absurd (omega arith)
  cells (a ∷ b ∷ c ∷ e ∷ []) n r len h = absurd (omega arith)
  cells (a ∷ b ∷ c ∷ e ∷ f ∷ g ∷ xs) n r len h = absurd (omega arith)

  append-view :
      (r : A) (ring : Ring A) → IsRing ring → view (append r ring) ≡ take 5 (r ∷ view ring)
  append-view r ring v = cells ring.records ring.count r v.0 v.1

  grown : (ring : Ring A) → ltb ring.count 5 ≡ true → ring.count + 1 ≤ 5
  grown ring e = let h = ltb→lt _ _ e in omega arith

  shifted : (xs : List A) → 0 + length (take 4 (drop 1 xs)) ≤ length xs
  shifted xs = omega (arith, length-take 4 (drop 1 xs), length-drop 1 xs)

  append-IsRing : (r : A) (ring : Ring A) → IsRing ring → IsRing (append r ring)
  unfolding append
  append-IsRing r ring v = elim (Bool-cases (ltb ring.count 5)) [
    | inl e ↦ rw e (length-set _ _ _ ∙ v.0, grown ring e)
    | inr e ↦
        rw e (length-set _ _ _ ∙ length-blit ring.records 0 _ (shifted ring.records) ∙ v.0, v.1)
  ]

  -- Records appended one after the other.
  abbrev pub append_all : List A → Ring A → Ring A
  append_all [] ring = ring
  append_all (r ∷ rs) ring = append_all rs (append r ring)

  -- The records of a history, the newest first.
  abbrev pub newest_first : List A → List A → List A
  newest_first [] old = old
  newest_first (r ∷ rs) old = newest_first rs (r ∷ old)

  take-newest_first :
      (rs xs ys : List A)
      → take 5 xs ≡ take 5 ys
      → take 5 (newest_first rs xs) ≡ take 5 (newest_first rs ys)
  take-newest_first [] xs ys e = e
  take-newest_first (r ∷ rs) xs ys e = take-newest_first rs (r ∷ xs) (r ∷ ys) (cons-take r xs ys e)

  append_all-view :
      (rs : List A) (ring : Ring A) (old : List A)
      → IsRing ring
      → view ring ≡ take 5 old
      → IsRing (append_all rs ring) × (view (append_all rs ring) ≡ take 5 (newest_first rs old))
  append_all-view [] ring old v e = (v, e)
  append_all-view (r ∷ rs) ring old v e =
      append_all-view rs (append r ring) (r ∷ old) (append-IsRing r ring v)
        (append-view r ring v ∙ cons-take r _ _ (rw e (take-shorter 5 5 old (omega arith))))

  take-over : (n m : ℕ) (xs : List A) → n ≤ m → take m (newest xs n) ≡ newest xs n
  take-over zero zero xs h = refl
  take-over zero (suc m) xs h = refl
  take-over (suc n) zero xs h = absurd (omega arith)
  take-over (suc n) (suc m) xs h = ap (λ ys. get_or xs n d ∷ ys) (take-over n m xs (omega arith))

  copy_out-view :
      (n : ℕ) (ring : Ring A)
      → n ≤ ring.count
      → copy_out d ring n 0 ≡ take n (newest ring.records ring.count)
  copy_out-view n ring h =
      let start : ring.count - 0 ≡ ring.count = omega arith in
      copy_out-newest ring n 0 (omega arith) ∙ ap (λ m. take n (newest ring.records m)) start

  get_newest-view :
      (capacity : ℕ) (ring : Ring A) → get_newest d capacity ring ≡ take capacity (view ring)
  unfolding get_newest view
  get_newest-view capacity ring = elim (Bool-cases (ltb ring.count capacity)) [
    | inl e ↦ rw e (
        copy_out-view ring.count ring (omega arith)
        ∙ take-over ring.count ring.count ring.records (omega arith)
        ∙ sym (take-over ring.count capacity ring.records (let h = ltb→lt _ _ e in omega arith)))
    | inr e ↦ rw e (copy_out-view capacity ring (ground arith))
  ]

  empty-view : (records : List A) → view (record { count = 0; records = records }) ≡ []
  unfolding view
  empty-view records = refl

  -- Of records appended to an empty ring of five cells, a caller with room for `capacity` gets the newest five at
  -- most, the newest first.
  pub history_is_newest_first :
      (rs records : List A) (capacity : ℕ)
      → length records ≡ 5
      → get_newest d capacity (append_all rs (record { count = 0; records = records }))
        ≡ take capacity (take 5 (newest_first rs []))
  history_is_newest_first rs records capacity len =
      let ring : Ring A = record { count = 0; records = records } in
      let h = append_all-view rs ring [] (len, omega arith) (empty-view records) in
      get_newest-view capacity (append_all rs ring) ∙ ap (take capacity) h.1
