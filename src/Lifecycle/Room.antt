-- ===== src/Lifecycle/Room.antt =====
-- makeRoomLocked and evictOldestIdleLocked of internal/lifecycle/lifecycle.go. `meter` lists what
-- the next calls of usedVRAMFunc answer; `none`, or the end of the list, is a failed query.
use audio_server.Common.{
  ℕ, suc, ◌+◌, ◌-◌, ◌==◌, ltb, leb, ◌&&◌, ◌||◌, not, if◌then◌else◌, Bool, true, false, Option, none,
  some, List, [], ◌∷◌, get_elem?, set, sum_by,
}
use audio_server.Lifecycle.Types.{
  Name, Instance, Error, over_limit, insufficient_room, stop, is_evictable,
}

-- What the loop over the map keeps of a running instance: its index, size and last use.
pub record Resident : Type 0 where
  pub at : ℕ
  pub used : ℕ
  pub last : ℕ

abbrev pub Meter : Type 0
Meter = List (Option ℕ)

-- A measurement, or else the value computed from the estimates.
unfoldable pub measure : Bool → Meter → ℕ → ℕ × Meter
measure false meter fallback = (fallback, meter)
measure true [] fallback = (fallback, [])
measure true (none ∷ meter) fallback = (fallback, meter)
measure true (some used ∷ meter) fallback = (used, meter)

abbrev pub counts_as_resident : Name → Instance → Bool
counts_as_resident requested i = i.running && not (i.name == requested)

unfoldable pub residents_from : Name → ℕ → List Instance → List Resident
residents_from requested k [] = []
residents_from requested k (i ∷ is) =
    let rest = residents_from requested (suc k) is in
    if counts_as_resident requested i
    then record { at = k; used = i.vram_mib; last = i.last_used } ∷ rest
    else rest

abbrev pub resident_size : Name → Instance → ℕ
resident_size requested i = if counts_as_resident requested i then i.vram_mib else 0

-- The sum of the residents' estimates.
abbrev pub estimate : Name → List Instance → ℕ
estimate requested = sum_by (resident_size requested)

unfoldable pub insert_by_last : Resident → List Resident → List Resident
insert_by_last r [] = r ∷ []
insert_by_last r (s ∷ ss) =
    let rest = insert_by_last r ss in if ltb s.last r.last then s ∷ rest else r ∷ s ∷ ss

-- sort.Slice by last use; instances used at the same time may come in any order.
unfoldable pub sort_by_last : List Resident → List Resident
unfolding insert_by_last
sort_by_last [] = []
sort_by_last (r ∷ rs) = insert_by_last r (sort_by_last rs)

pub record Progress : Type 0 where
  pub instances : List Instance
  pub used : ℕ
  pub meter : Meter
  pub stopped : Bool

-- One candidate of the loop: it is stopped if it is still running and idle. `used` below 0 would
-- leave room just as 0 does, since the request alone is within the limit.
unfoldable pub evict_one : Bool → Resident → Option Instance → Progress → Progress
unfolding measure
evict_one has_meter r none g = record g { stopped = false }
evict_one has_meter r (some i) g =
    if is_evictable i
    then (let (used', meter') = measure has_meter g.meter (g.used - r.used) in
        record {
          instances = set g.instances r.at (stop i);
          used = used';
          meter = meter';
          stopped = true;
        })
    else record g { stopped = false }

-- The loop over the sorted candidates, and whether it found room.
unfoldable pub evict_loop : ℕ → ℕ → Bool → List Resident → Progress → Progress × Bool
unfolding evict_one
evict_loop max required has_meter [] g = (g, false)
evict_loop max required has_meter (r ∷ rs) g =
    let g' = evict_one has_meter r (get_elem? g.instances r.at) g in
    let rest = evict_loop max required has_meter rs g' in
    if g'.stopped && leb (g'.used + required) max then (g', true) else rest

abbrev pub room_error : Bool → Option Error
room_error true = none
room_error false = some insufficient_room

unfoldable pub make_room :
    ℕ → Bool → Name → ℕ → Meter → List Instance → List Instance × Meter × Option Error
unfolding measure residents_from sort_by_last evict_loop
make_room max has_meter requested required meter is =
    if (max == 0) || (required == 0)
    then (is, meter, none)
    else if ltb max required
    then (is, meter, some over_limit)
    else (let (used, meter') = measure has_meter meter (estimate requested is) in
        let start : Progress = record {
          instances = is;
          used = used;
          meter = meter';
          stopped = false;
        } in
        let (g, found) =
          evict_loop max required has_meter (sort_by_last (residents_from requested 0 is)) start in
        if leb (used + required) max
        then (is, meter', none)
        else (g.instances, g.meter, room_error found))

-- The least recently used instance other than `exclude` that may be evicted: its index and last
-- use. The first of several with the same last use is kept.
abbrev pub better : Name → ℕ → Instance → Option (ℕ × ℕ) → Option (ℕ × ℕ)
better exclude k i none =
    if is_evictable i && not (i.name == exclude) then some (k, i.last_used) else none
better exclude k i (some (at, last)) =
    if is_evictable i && not (i.name == exclude) && ltb i.last_used last
    then some (k, i.last_used)
    else some (at, last)

unfoldable pub oldest_from : Name → ℕ → List Instance → Option (ℕ × ℕ) → Option (ℕ × ℕ)
oldest_from exclude k [] best = best
oldest_from exclude k (i ∷ is) best = oldest_from exclude (suc k) is (better exclude k i best)

unfoldable pub stop_at : ℕ → Option Instance → List Instance → List Instance × Bool
stop_at k none is = (is, false)
stop_at k (some i) is = if is_evictable i then (set is k (stop i), true) else (is, false)

unfoldable pub stop_found : List Instance → Option (ℕ × ℕ) → List Instance × Bool
unfolding stop_at
stop_found is none = (is, false)
stop_found is (some (k, last)) = stop_at k (get_elem? is k) is

unfoldable pub evict_oldest_idle : Name → List Instance → List Instance × Bool
unfolding oldest_from stop_found
evict_oldest_idle exclude is = stop_found is (oldest_from exclude 0 is none)
