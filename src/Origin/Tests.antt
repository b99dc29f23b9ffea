-- ===== src/Origin/Tests.antt =====
-- src/caorigin.c and src/calocation.c on concrete locations.
use casync.Prelude.{
  ℕ, ◌+◌, ◌<◌, ◌≡◌, refl, none, some, [], ◌∷◌, true, false, take, replicate, arith, max64, ok, err,
  einval,
}
use casync.Location.{Location, Memory, payload, void, merge, advance_location, new_location}
use casync.Location.Cells.{cells, IsLocation, unknown}
use casync.Location.Copies.Change.{Advances, advance_location-Advances}
use casync.Location.Copies.Merge.{Merges, merge-Merges}
use casync.Origin.{Origin, put, put_void, concat, advance_bytes}
use casync.Origin.Cells.{all_cells, total, AreLocations, IsOrigin}
use casync.Origin.Put.{Puts, put-Puts}
use casync.Origin.Put.Void.{put_void-Puts}
use casync.Origin.Concat.{Adds, concat-Adds}
use casync.Origin.Advance.{Drops, advance_bytes-Drops}

-- Objects have other owners, and there is memory.
abbrev shared : Memory
shared = record { sole = λ l. false; allocate = λ l. true; allocate_array = λ n. true }

-- Bytes of the payload of the file "a"
abbrev part : ℕ → ℕ → Location
part offset size = record {
  designator = payload;
  path = some (97 ∷ []);
  offset = offset;
  size = size;
  root = 1;
}

abbrev gap : Location
gap = record { designator = void; path = none; offset = 0; size = 5; root = 0 }

abbrev stream : Origin
stream = record { items = part 0 10 ∷ gap ∷ part 20 4 ∷ []; n_bytes = 19 }

part-IsLocation :
    (offset size : ℕ) → 0 < size → offset + size < max64 → IsLocation (part offset size)
unfolding IsLocation
part-IsLocation offset size p f = (p, f, λ v. absurd (ground arith))

gap-IsLocation : IsLocation gap
unfolding IsLocation
gap-IsLocation = (omega arith, omega arith, λ v. (refl, refl))

stream-IsOrigin : IsOrigin stream
unfolding IsOrigin AreLocations total
stream-IsOrigin = (
  (
    part-IsLocation 0 10 (omega arith) (omega arith),
    (gap-IsLocation, (part-IsLocation 20 4 (omega arith) (omega arith), tt)),
  ),
  refl,
  omega arith,
)

-- A location that is used up is an error where it is shared, and of size 0 where it is not.
used_up :
    (advance_location shared 10 (part 0 10) ≡ (part 0 10, err einval))
    × (advance_location (record shared { sole = λ l. true }) 10 (part 0 10) ≡ (part 10 0, ok true))
unfolding advance_location new_location
used_up = (refl, refl)

merge-Merges_example : Merges shared (merge shared (part 10 4) (part 0 10)) (part 0 10) (part 10 4)
merge-Merges_example =
    merge-Merges shared (part 0 10) (part 10 4) (part-IsLocation 0 10 (omega arith) (omega arith))
      (part-IsLocation 10 4 (omega arith) (omega arith)) (omega arith)

advance_location-Advances_example :
    Advances shared (advance_location shared 4 (part 0 10)) (part 0 10) 4
advance_location-Advances_example =
    advance_location-Advances shared (part 0 10) 4
      (part-IsLocation 0 10 (omega arith) (omega arith)) (omega arith) (omega arith)

put-Puts_example : Puts shared (put shared (part 24 6) stream) stream (cells (part 24 6)) 6
put-Puts_example =
    put-Puts shared stream (part 24 6) stream-IsOrigin
      (part-IsLocation 24 6 (omega arith) (omega arith)) (omega arith)

put_void-Puts_example : Puts shared (put_void shared 7 stream) stream (replicate 7 unknown) 7
put_void-Puts_example = put_void-Puts shared stream 7 stream-IsOrigin (omega arith) (omega arith)

concat-Adds_example :
    Adds shared (concat shared stream 12 stream) true stream (take 12 (all_cells stream.items)) 12
concat-Adds_example =
    concat-Adds shared stream stream 12 stream-IsOrigin stream-IsOrigin (omega arith) (omega arith)
      (omega arith)

advance_bytes-Drops_example : Drops shared (advance_bytes shared 12 stream) stream 12
advance_bytes-Drops_example = advance_bytes-Drops shared stream 12 stream-IsOrigin (omega arith)
