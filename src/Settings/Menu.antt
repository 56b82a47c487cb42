-- ===== src/Settings/Menu.antt =====
-- The order in which the handset lists the settings (Firmware/src/divecan/uds/uds_settings.c).
pub mod Order
use dive_canhead.Base.{
  ℕ, zero, suc, Bool, true, false, Option, none, some, List, [], ◌∷◌, ◌++◌, length, get_or, ltb,
  leb, if◌then◌else◌,
}
use dive_canhead.Settings.{Build, is_listed}

-- SETTING_COUNT: the firmware version, seven settings, three flags of the cells and the identity
abbrev pub setting_count : ℕ
setting_count = 12

abbrev pub add_new : ℕ → List ℕ → List ℕ
add_new s out = if is_listed false s out then out else out ++ s ∷ []

-- 1. The slots that are in range, each setting once
abbrev pub curate : ℕ → List (Option ℕ) → List ℕ → List ℕ
curate n [] out = out
curate n (none ∷ cfg) out = curate n cfg out
curate n (some s ∷ cfg) out = curate n cfg (if leb n s then out else add_new s out)

-- 2. The remaining settings in natural order, from `s` on
abbrev pub append_rest : ℕ → ℕ → List ℕ → List ℕ
append_rest zero s out = out
append_rest (suc left) s out = append_rest left (suc s) (add_new s out)

unfoldable pub compute_menu_order : List (Option ℕ) → ℕ → List ℕ
compute_menu_order cfg n = append_rest n 0 (curate n cfg [])

-- The order is built from constants when it is first needed, and kept.
unfoldable pub menu_to_storage : Build → ℕ → ℕ
unfolding compute_menu_order
menu_to_storage b wire =
    let order = compute_menu_order b.menu_slots setting_count in
    if ltb wire (length order) then get_or order wire setting_count else setting_count
