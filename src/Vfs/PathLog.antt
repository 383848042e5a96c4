-- ===== src/Vfs/PathLog.antt =====
-- kernel/core/vfs/path_log.c: the ring of the paths used last. A path is the list of its bytes, and
-- `path` is not NULL. What `path_log_print` prints is the list of the entries.
pub mod Short
use bailey_forbes_flinstone.Base.{
  ℕ, zero, suc, ◌+◌, ◌-◌, ◌%◌, ◌≡◌, ◌≤◌, ◌<◌, ◌∙◌, refl, sym, ap, ap₂, arith, Bool, true, false,
  ◌||◌, List, [], ◌∷◌, ◌++◌, ◌==◌, ltb, leb, min, length, take, if◌then◌else◌, update,
}

abbrev pub log_max : ℕ
log_max = 64

-- `path_log_entry_t`
pub record Entry : Type 0 where
  pub op : ℕ
  pub path : List ℕ

-- `s_log`, `s_head`, `s_count` and `s_inited`
pub record Log : Type 0 where
  pub entries : ℕ → Entry
  pub head : ℕ
  pub count : ℕ
  pub inited : Bool

abbrev zero_entry : Entry
zero_entry = record { op = 0; path = [] }

unfoldable pub init : Log → Log
init log =
    if log.inited
    then log
    else record { entries = λ i. zero_entry; head = 0; count = 0; inited = true }

unfoldable pub log_record : Log → ℕ → List ℕ → Log
log_record log op path =
    if log.inited
    then record log {
      entries = update log.entries log.head (record { op = op; path = take 255 path });
      head = (log.head + 1) % log_max;
      count = if ltb log.count log_max then log.count + 1 else log.count;
    }
    else log

-- The `n` entries from place `i` on.
unfoldable pub entries_from : (ℕ → Entry) → ℕ → ℕ → List Entry
entries_from entries i zero = []
entries_from entries i (suc n) = entries (i % log_max) ∷ entries_from entries (i + 1) n

-- `wanted` is `last_n`, with 0 for a number that is not positive.
unfoldable pub print : Log → ℕ → List Entry
unfolding entries_from
print log wanted =
    let last_n = if wanted == 0 || ltb log_max wanted then log.count else wanted in
    let start = if ltb log.count log_max then 0 else (log.head + log_max - last_n) % log_max in
    let total = if ltb log.count log_max then log.count else log_max in
    if log.inited then entries_from log.entries start (min last_n total) else []

unfoldable pub shutdown : Log → Log
shutdown log = record log { inited = false }
