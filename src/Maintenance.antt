-- ===== src/Maintenance.antt =====
-- The shared scratch region (Firmware/src/maintenance_arena.c) and the error histogram that it
-- holds off the flash (Firmware/src/error_histogram.c), as one state: the arena calls the histogram.
pub mod Ownership
pub mod Claims
pub mod Content
pub mod Saving
mod Examples
use dive_canhead.Base.{
  ℕ, zero, suc, ◌+◌, ◌*◌, ◌-◌, ◌%◌, ◌^◌, ◌++◌, List, [], ◌∷◌, Bool, true, false, not, ◌&&◌, ◌||◌,
  Option, none, some, length, map, get_or, set, replicate, ltb, leb, ◌==◌, if◌then◌else◌,
}

-- `MaintArenaOwner_t`
pub data Owner : Type 0 where
  free ota factory log_index log_stream flash autotune : Owner

abbrev pub owner_code : Owner → ℕ
owner_code free = 0
owner_code ota = 1
owner_code factory = 2
owner_code log_index = 3
owner_code log_stream = 4
owner_code flash = 5
owner_code autotune = 6

abbrev pub is_owner : Owner → Owner → Bool
is_owner a b = owner_code a == owner_code b

-- ERROR_HISTOGRAM_COUNT and the code OP_ERR_FLASH
abbrev pub histogram_count : ℕ
histogram_count = 38

abbrev pub err_flash : ℕ
err_flash = 7

abbrev pub hist_max_count : ℕ
hist_max_count = 0xFFFF

-- What `ext_flash_settings_save_one` returns, and whether zbus takes the report of a failure.
pub record Outcome : Type 0 where
  pub rc : ℕ
  pub reported : Bool

-- `arena_state`, the three objects of the histogram, and the writes to NVS with their results. An
-- `atomic_val_t` is a 32-bit word, whose upper half stands for the negative numbers.
pub record Maintenance : Type 0 where
  pub owner : Owner
  pub content_owner : Owner
  pub generation : ℕ
  pub log_index_building : Bool
  pub histogram : List ℕ
  pub dirty : Bool
  pub save_pause_depth : ℕ
  pub writes : List (List ℕ × ℕ)

abbrev pub word : ℕ → ℕ
word n = n % 2 ^ 32

abbrev pub is_positive : ℕ → Bool
is_positive n = ltb 0 n && ltb n (2 ^ 31)

-- The entry that `snapshot_to_u16` makes of a counter
unfoldable pub to_u16 : ℕ → ℕ
to_u16 v = if ltb hist_max_count v && ltb v (2 ^ 31) then hist_max_count else v % 2 ^ 16

-- `snapshot_to_u16`
unfoldable pub snapshot_to_u16 : List ℕ → List ℕ
snapshot_to_u16 counters = map to_u16 counters

-- `error_histogram_snapshot` for a buffer of so many entries, with the number of bytes
unfoldable pub snapshot : ℕ → Maintenance → Option (List ℕ) × ℕ
snapshot out_count s =
    if leb histogram_count out_count
    then (some (snapshot_to_u16 s.histogram), histogram_count * 2)
    else (none, 0)

-- `error_observer_cb`
unfoldable pub observe : ℕ → Maintenance → Maintenance
observe code s =
    if ltb code histogram_count
    then record s {
      histogram = set s.histogram code (word (get_or s.histogram code 0 + 1));
      dirty = true;
    }
    else s

-- `op_error_publish` of OP_ERR_FLASH, whose listener is `error_observer_cb`.
abbrev pub report : Outcome → Maintenance → Maintenance
report out s = if out.reported then observe err_flash s else s

-- `hist_settings_set` for the leaf of the histogram, with the entries that `read_cb` gave, or `none`
-- for its error. Another number of entries than the histogram has is refused (EIO).
unfoldable pub settings_set : Option (List ℕ) → Maintenance → Maintenance × Bool
settings_set (some buf) s =
    if length buf == histogram_count then (record s { histogram = buf }, true) else (s, false)
settings_set none s = (s, false)

abbrev pub store_nvs : List ℕ → Outcome → Maintenance → Maintenance
store_nvs buf out s₀ =
    let s : Maintenance = record s₀ { writes = s₀.writes ++ (buf, out.rc) ∷ [] } in
    if out.rc == 0 then record s { dirty = false } else report out s

-- `save_to_nvs`
unfoldable pub save_to_nvs : Outcome → Maintenance → Maintenance
save_to_nvs out s = store_nvs (snapshot_to_u16 s.histogram) out s

-- `save_work_handler`
unfoldable pub save_work : Outcome → Maintenance → Maintenance
save_work out s = if s.save_pause_depth == 0 && s.dirty then save_to_nvs out s else s

-- `error_histogram_pause`
unfoldable pub pause : Maintenance → Maintenance
pause s = record s { save_pause_depth = word (s.save_pause_depth + 1) }

-- `error_histogram_resume`
unfoldable pub resume : Maintenance → Maintenance
resume s =
    if is_positive s.save_pause_depth
    then record s { save_pause_depth = s.save_pause_depth - 1 }
    else s

-- `error_histogram_clear`, with the result code
unfoldable pub clear : Outcome → Maintenance → Maintenance × ℕ
clear out s =
    let zeros = replicate histogram_count 0 in
    (store_nvs zeros out (record s { histogram = zeros }), out.rc)

-- `owner_writes_scratch`
unfoldable pub owner_writes_scratch : Owner → Bool
owner_writes_scratch o =
    is_owner ota o || is_owner factory o || is_owner log_index o || is_owner autotune o

-- `free_or_same` and `evictable` of `maint_arena_claim`
unfoldable pub free_or_same : Owner → Maintenance → Bool
free_or_same o s = is_owner free s.owner || is_owner o s.owner

unfoldable pub evictable : Owner → Maintenance → Bool
evictable o s = is_owner log_index s.owner && not (is_owner log_index o) && not s.log_index_building

-- The write of `content_owner` and `generation` in a granted claim
unfoldable pub take_content : Owner → Maintenance → Maintenance
take_content o s =
    if owner_writes_scratch o && not (is_owner o s.content_owner)
    then record s { generation = word (s.generation + 1); content_owner = o }
    else s

-- `maint_arena_claim`, and whether the region is granted
unfoldable pub claim : Owner → Maintenance → Maintenance × Bool
claim o s =
    if is_owner free o
    then (s, false)
    else if free_or_same o s || evictable o s
    then (let s₁ = if is_owner free s.owner then pause s else s in
        (record (take_content o s₁) { owner = o }, true))
    else (s, false)

-- `maint_arena_release`
unfoldable pub release : Owner → Maintenance → Maintenance
release o s = if is_owner o s.owner then resume (record s { owner = free }) else s

-- `maint_arena_set_index_building`
unfoldable pub set_index_building : Bool → Maintenance → Maintenance
set_index_building building s = record s { log_index_building = building }

-- The static objects at reset
abbrev pub at_reset : Maintenance
at_reset = record {
  owner = free;
  content_owner = free;
  generation = 0;
  log_index_building = false;
  histogram = replicate histogram_count 0;
  dirty = false;
  save_pause_depth = 0;
  writes = [];
}
