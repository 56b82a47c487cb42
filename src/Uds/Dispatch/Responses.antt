-- ===== src/Uds/Dispatch/Responses.antt =====
-- The responses to ReadDataByIdentifier: how many, how long, and what they hold.
use dive_canhead.Base.{
  ℕ, zero, suc, ◌+◌, ◌*◌, ◌-◌, ◌/◌, ◌%◌, ◌≤◌, ◌≡◌, refl, sym, ◌∙◌, ap, List, [], ◌∷◌, ◌++◌,
  append_assoc, append-nil, true, false, not, ◌||◌, Option, some, ltb, leb, ◌==◌, inl, inr,
  Bool-cases, Option-cases, arith, either, length, length-append,
}
use dive_canhead.Uds.{Device, Head, at, respond, refuse, negative_response, report}
use dive_canhead.Uds.Dispatch.{read_single, read_loop, read_data, setting_did_busy}

-- One more response, of 1 to 255 bytes, behind those that were sent.
pub record Answered (h h' : Head) : Type 0 where
  pub response : List ℕ
  pub answers : h'.sent ≡ h.sent ++ response ∷ []
  pub lower : 1 ≤ length response
  pub upper : length response ≤ 255

refuse-Answered : (sid nrc : ℕ) (h : Head) → Answered h (refuse sid nrc h)
unfolding refuse negative_response respond report
refuse-Answered sid nrc h = record {
  response = 0x7F ∷ sid ∷ nrc ∷ [];
  answers = refl;
  lower = omega arith;
  upper = omega arith;
}

read_loop-Answered :
    (payload : ℕ → ℕ → Option (List ℕ)) (d : Device) (request : List ℕ) (count i : ℕ)
    (response : List ℕ) (h : Head)
    → 1 ≤ length response
    → length response ≤ 255
    → Answered h (read_loop payload d request count i response h)
unfolding read_loop respond
read_loop-Answered payload d request zero i response h lo hi = record {
  response = response;
  answers = refl;
  lower = lo;
  upper = hi;
}
read_loop-Answered payload d request (suc count) i response h lo hi =
    let did = at request i * 256 + at request (i + 1) in
    either (Answered h) (setting_did_busy d did false) _ _ (refuse-Answered 0x22 0x21 h)
      (elim (Option-cases (read_single payload did (length response))) [
        | inl e ↦ rw e (refuse-Answered 0x22 0x31 h)
        | inr (bytes, e) ↦ rw e (elim (Bool-cases (leb 256 (length (response ++ bytes)))) [
          | inl long ↦ rw long (refuse-Answered 0x22 0x14 h)
          | inr fits ↦ rw fits (
              read_loop-Answered payload d request count (i + 2) (response ++ bytes) h
                (omega (arith, lo, length-append response bytes)) (ground arith))
        ])
      ])

-- Each ReadDataByIdentifier request, of whatever bytes and length, is answered exactly once,
-- behind the responses already sent, with at least one and at most 255 bytes: the response
-- buffer has 256.
pub read_data-Answered :
    (payload : ℕ → ℕ → Option (List ℕ)) (d : Device) (request : List ℕ) (n : ℕ) (h : Head)
    → Answered h (read_data payload d request n h)
unfolding read_data
read_data-Answered payload d request n h =
    either (Answered h) (ltb n 4 || not ((n - 2) % 2 == 0)) _ _ (refuse-Answered 0x22 0x13 h) (
      read_loop-Answered payload d request ((n - 2) / 2) 2 (0x62 ∷ []) h (omega arith)
        (omega arith))

-- The identifiers of a request, as they stand in it, and their records in the response
unfoldable pub wanted : List ℕ → List ℕ
wanted [] = []
wanted (did ∷ dids) = did / 256 ∷ did % 256 ∷ wanted dids

unfoldable pub records : (ℕ → List ℕ) → List ℕ → List ℕ
records value [] = []
records value (did ∷ dids) = (did / 256 % 256 ∷ did % 256 ∷ value did) ++ records value dids

-- A reader gives the value of an identifier where there is room for it.
abbrev pub Serves : (ℕ → ℕ → Option (List ℕ)) → (ℕ → List ℕ) → Type 0
Serves payload value =
    (did room : ℕ) → length (value did) ≤ room → payload did room ≡ some (value did)

at_end : (pre : List ℕ) (a : ℕ) (rest : List ℕ) → at (pre ++ a ∷ rest) (length pre) ≡ a
at_end [] a rest = refl
at_end (x ∷ pre) a rest = at_end pre a rest

at_next : (pre : List ℕ) (a b : ℕ) (rest : List ℕ) → at (pre ++ a ∷ b ∷ rest) (length pre + 1) ≡ b
at_next [] a b rest = refl
at_next (x ∷ pre) a b rest =
    let e : suc (length pre) + 1 ≡ suc (length pre + 1) = omega arith in rw e (at_next pre a b rest)

length_wanted : (dids : List ℕ) → length (wanted dids) ≡ 2 * length dids
unfolding wanted
length_wanted [] = omega arith
length_wanted (did ∷ dids) = omega (arith, length_wanted dids)

read_single_value :
    (payload : ℕ → ℕ → Option (List ℕ)) (value : ℕ → List ℕ) (did offset : ℕ)
    → Serves payload value
    → offset + 2 + length (value did) ≤ 255
    → read_single payload did offset ≡ some (did / 256 % 256 ∷ did % 256 ∷ value did)
unfolding read_single
read_single_value payload value did offset serves fits =
    let room : ltb (256 - offset) 3 ≡ false = ground arith in
    rw (room, serves did (256 - offset - 2) (omega arith)) refl

loaded_is_free :
    (d : Device) (did : ℕ) → d.settings_loaded ≡ true → setting_did_busy d did false ≡ false
unfolding setting_did_busy
loaded_is_free d did e = rw e refl

read_loop_records :
    (payload : ℕ → ℕ → Option (List ℕ)) (value : ℕ → List ℕ) (d : Device)
    (dids pre response : List ℕ) (h : Head)
    → Serves payload value
    → d.settings_loaded ≡ true
    → length response + length (records value dids) ≤ 255
    → read_loop payload d (pre ++ wanted dids) (length dids) (length pre) response h
      ≡ respond (response ++ records value dids) h
unfolding read_loop wanted records
read_loop_records payload value d [] pre response h serves loaded fits =
    rw (append-nil response) refl
read_loop_records payload value d (did ∷ dids) pre response h serves loaded fits =
    let entry = did / 256 % 256 ∷ did % 256 ∷ value did in
    let long = length-append entry (records value dids) in
    let grown = length-append response entry in
    let did_at : did / 256 * 256 + did % 256 ≡ did = omega arith in
    let room : leb 256 (length (response ++ entry)) ≡ false = ground arith in
    let next = length-append pre (did / 256 ∷ did % 256 ∷ []) in
    let one =
      read_single_value payload value did (length response) serves (omega (arith, long, fits)) in
    let two = did / 256 ∷ did % 256 ∷ [] in
    let rest =
      read_loop_records payload value d dids (pre ++ two) (response ++ entry) h serves loaded
        (omega (arith, long, grown, fits)) in
    rw
      (
        at_end pre (did / 256) (did % 256 ∷ wanted dids),
        at_next pre (did / 256) (did % 256) (wanted dids),
        did_at,
        loaded_is_free d did loaded,
        one,
        room,
      )
      (ap (λ q. read_loop payload d q (length dids) (length pre + 2) (response ++ entry) h)
          (sym (append_assoc pre two (wanted dids)))
        ∙ ap
            (λ i.
              read_loop payload d (pre ++ two ++ wanted dids) (length dids) i (response ++ entry) h)
            (sym next)
        ∙ rest
        ∙ ap (λ r. respond r h) (append_assoc response entry (records value dids)))

-- A request for one or more identifiers, whose reader gives each value where there is room for
-- it, is answered by one response that holds the records of these identifiers in the order of
-- the request, if they and the service byte fit into 255 bytes and the settings are loaded.
pub read_data-records :
    (payload : ℕ → ℕ → Option (List ℕ)) (value : ℕ → List ℕ) (d : Device) (pad did : ℕ)
    (dids : List ℕ) (h : Head)
    → Serves payload value
    → d.settings_loaded ≡ true
    → 1 + length (records value (did ∷ dids)) ≤ 255
    → read_data payload d (pad ∷ 0x22 ∷ wanted (did ∷ dids)) (4 + 2 * length dids) h
      ≡ respond (0x62 ∷ records value (did ∷ dids)) h
unfolding read_data
read_data-records payload value d pad did dids h serves loaded fits =
    let long : (ltb (4 + 2 * length dids) 4 || not ((4 + 2 * length dids - 2) % 2 == 0)) ≡ false =
      ground arith in
    let count : (4 + 2 * length dids - 2) / 2 ≡ length (did ∷ dids) = omega arith in
    rw (long, count)
      (read_loop_records payload value d (did ∷ dids) (pad ∷ 0x22 ∷ []) (0x62 ∷ []) h serves loaded
        fits)
