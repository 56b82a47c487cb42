-- ===== src/Uds/Same.antt =====
-- What most handlers of a request (Firmware/src/divecan/uds/uds.c) leave alone.
use dive_canhead.Base.{◌≡◌, refl}
use dive_canhead.Uds.{Head, is_streaming}

-- The fields of the download machine
abbrev pub SameMachine : Head → Head → Type 0
SameMachine h h' =
    (h'.ota ≡ h.ota)
    × (h'.has_image ≡ h.has_image)
    × (h'.push_suspended ≡ h.push_suspended)
    × (h'.bytes_received ≡ h.bytes_received)
    × (h'.streamed ≡ h.streamed)
    × (is_streaming h' ≡ is_streaming h)

-- All but the session, the responses, the errors, the requests handed on and the risks.
abbrev pub SameState : Head → Head → Type 0
SameState h h' = (h'.arena ≡ h.arena) × (h'.log_paused ≡ h.log_paused) × SameMachine h h'

pub same : (h : Head) → SameState h h
same h = (refl, refl, (refl, refl, refl, refl, refl, refl))

-- The machine, whether a log is downloaded, and who owns the region.
abbrev pub Aside : Head → Head → Type 0
Aside h h' = (h'.arena.owner ≡ h.arena.owner) × SameMachine h h'

pub still : (h : Head) → Aside h h
still h = (refl, (refl, refl, refl, refl, refl, refl))
