-- ===== src/Origin.antt =====
-- src/caorigin.c: where a stream of bytes comes from, as a sequence of locations. `items` are `first` and `others`
-- as one sequence, so that `n_items` is their number.
pub mod Cells
pub mod Put
pub mod Concat
pub mod Advance
mod Tests
use casync.Prelude.{
  ℕ, zero, suc, ◌+◌, ◌-◌, Bool, true, false, ◌&&◌, not, Option, none, some, List, [], ◌∷◌, ◌++◌,
  if◌then◌else◌, ltb, leb, ◌==◌, max64, wrap64, length, drop, get_elem?, Result, ok, err, einval,
  enomem, espipe, assertion,
}
use casync.Action.{Action, pure, fail, modify, ensure, require, ◌>>=◌, ◌>>◌}
use casync.Location.{
  Location, Memory, Designator, is_void, void, new_location, patch_size, advance_location, merge,
}

-- `CaOrigin`
pub record Origin : Type 0 where
  pub items : List Location
  pub n_bytes : ℕ

-- `ca_origin_new`, where there is memory
abbrev pub new_origin : Origin
new_origin = record { items = []; n_bytes = 0 }

-- `ca_origin_flush`
abbrev pub flush : Origin → Origin
flush origin = record origin { items = []; n_bytes = 0 }

-- `ca_origin_get`
unfoldable pub get : Origin → ℕ → Option Location
get origin i = get_elem? origin.items i

-- A change of the last item, by which the items before it stay
abbrev pub behind : Location → List Location × Result Bool → List Location × Result Bool
behind l (ls, r) = (l ∷ ls, r)

unfoldable pub on_last : Action Location Bool → List Location → List Location × Result Bool
on_last change [] = ([], ok false)
on_last change (l ∷ []) = ((change l).0 ∷ [], (change l).1)
on_last change (l ∷ k ∷ ls) = behind l (on_last change (k ∷ ls))

-- The sizes of the first `n` items
unfoldable pub dropped_bytes : ℕ → List Location → ℕ
dropped_bytes zero ls = 0
dropped_bytes (suc n) [] = 0
dropped_bytes (suc n) (l ∷ ls) = wrap64 (l.size + dropped_bytes n ls)

-- `ca_origin_advance_items`
unfoldable pub advance_items : ℕ → Action Origin (Unit {0})
advance_items n origin =
    if n == 0
    then (origin, ok tt)
    else if ltb (length origin.items) n
    then (origin, err espipe)
    else if n == length origin.items
    then (flush origin, ok tt)
    else if leb origin.n_bytes (dropped_bytes n origin.items)
    then (origin, err assertion)
    else (
      record {
        items = drop n origin.items;
        n_bytes = origin.n_bytes - dropped_bytes n origin.items;
      },
      ok tt,
    )

-- The loop of `ca_origin_advance_bytes`: how many items are left behind as a whole, and how many bytes then are.
unfoldable pub whole_items : List Location → ℕ → ℕ × ℕ
whole_items [] n = (0, n)
whole_items (l ∷ ls) n =
    let (i, left) = whole_items ls (n - l.size) in if ltb n l.size then (0, n) else (suc i, left)

-- The assertion of this loop: the size of each item that it comes to is known.
unfoldable pub sizes_known : List Location → ℕ → Bool
sizes_known [] n = true
sizes_known (l ∷ ls) n =
    let rest = sizes_known ls (n - l.size) in
    not (l.size == max64) && (if ltb n l.size then true else rest)

abbrev pub ends_void : List Location → Bool
ends_void [] = false
ends_void (l ∷ []) = is_void l.designator
ends_void (l ∷ k ∷ ls) = ends_void (k ∷ ls)

abbrev pub extended : ℕ → Origin → List Location × Result Bool → Origin × Result (Unit {0})
extended n origin (items, err e) = (record origin { items = items }, err e)
extended n origin (items, ok b) =
    (record { items = items; n_bytes = wrap64 (origin.n_bytes + n) }, ok tt)

abbrev pub before : List Location → Location × Result Bool → List Location × Result Bool
before ls (l, r) = (l ∷ ls, r)

abbrev pub taken : ℕ → Origin → List Location × Result Bool → Origin × Result (Unit {0})
taken n origin (items, err e) = (record origin { items = items }, err e)
taken n origin (items, ok b) = (record { items = items; n_bytes = origin.n_bytes - n }, ok tt)

module _ (memory : Memory) where
  -- `ca_origin_put` where there are items, once the last one was tried
  abbrev pub put_after :
      Location → Origin → List Location × Result Bool → Origin × Result (Unit {0})
  put_after location origin (items, err e) = (record origin { items = items }, err e)
  put_after location origin (items, ok true) =
      (record { items = items; n_bytes = wrap64 (origin.n_bytes + location.size) }, ok tt)
  put_after location origin (items, ok false) =
      if memory.allocate_array (length items)
      then (
        record {
          items = items ++ (location ∷ []);
          n_bytes = wrap64 (origin.n_bytes + location.size);
        },
        ok tt,
      )
      else (record origin { items = items }, err enomem)

  -- `ca_origin_put`
  unfoldable pub put : Location → Action Origin (Unit {0})
  put location origin =
      if location.size == max64
      then (origin, err einval)
      else if length origin.items == 0
      then (record { items = location ∷ []; n_bytes = location.size }, ok tt)
      else put_after location origin (on_last (merge memory location) origin.items)

  -- The loop of `ca_origin_concat`. Each location of the other origin has that one and the loop as its owners.
  unfoldable pub put_all : List Location → Action Origin (Unit {0})
  put_all [] = pure tt
  put_all (l ∷ ls) = do ensure (λ o. not (l.size == max64)) assertion; put l; put_all ls

  abbrev pub cut_location : Location → ℕ → Location × Result Bool
  cut_location l n = if ltb n l.size then patch_size memory false n l else (l, ok false)

  -- The same, up to so many bytes
  unfoldable pub put_bytes : List Location → ℕ → Action Origin (Unit {0})
  put_bytes [] n = pure tt
  put_bytes (l ∷ ls) n =
      let rest = put_bytes ls (n - (cut_location l n).0.size) in
      do
        ensure (λ o. not (l.size == max64)) assertion
        (λ o. (o, (cut_location l n).1)) >>= λ done. put (cut_location l n).0
        (if n - (cut_location l n).0.size == 0 then pure tt else rest)

  -- `ca_origin_concat`; the Boolean is the result 1 or 0.
  unfoldable pub concat : Origin → ℕ → Action Origin Bool
  concat other n origin =
      if n == 0
      then (origin, ok false)
      else if not (n == max64) && ltb other.n_bytes n
      then (origin, err espipe)
      else if (n == max64) && (length other.items == 0)
      then (origin, ok false)
      else ((if n == max64 then put_all other.items else put_bytes other.items n)
            >> pure (not (length other.items == 0)))
          origin

  abbrev pub advance_first : ℕ → List Location → List Location × Result Bool
  advance_first n [] = ([], err assertion)
  advance_first n (l ∷ ls) =
      if ltb n l.size then before ls (advance_location memory n l) else (l ∷ ls, err assertion)

  -- The rest of `ca_origin_advance_bytes`, within the first item
  unfoldable pub advance_within : ℕ → Action Origin (Unit {0})
  advance_within n origin =
      if leb origin.n_bytes n
      then (origin, err assertion)
      else taken n origin (advance_first n origin.items)

  -- `ca_origin_advance_bytes`
  unfoldable pub advance_bytes : ℕ → Action Origin (Unit {0})
  advance_bytes n origin =
      if n == 0
      then (origin, ok tt)
      else if ltb origin.n_bytes n
      then (origin, err espipe)
      else if n == origin.n_bytes
      then (flush origin, ok tt)
      else if not (sizes_known origin.items n)
      then (origin, err assertion)
      else let (i, left) = whole_items origin.items n in
        (advance_items i >> advance_within left) origin

  abbrev pub put_made : Result Location → Action Origin (Unit {0})
  put_made (err e) origin = (origin, err e)
  put_made (ok v) origin = put v origin

  -- `ca_origin_put_void`
  unfoldable pub put_void : ℕ → Action Origin (Unit {0})
  put_void n origin =
      if n == 0
      then (origin, ok tt)
      else if ends_void origin.items
      then extended n origin
          (on_last (λ l. patch_size memory (memory.sole l) (wrap64 (l.size + n)) l) origin.items)
      else put_made (new_location memory none void 0 n) origin
