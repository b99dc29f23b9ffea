-- ===== src/Location.antt =====
-- src/calocation.c: where some data stand in a directory tree. A location is a value: whether the object has one
-- owner (then it is changed in place) and whether there is memory for a new one are asked of `Memory`.
pub mod Cells
pub mod Copies
use casync.Prelude.{
  ℕ, ◌+◌, ◌-◌, Bool, true, false, ◌&&◌, ◌||◌, not, Option, none, some, List, [], ◌∷◌, ◌++◌,
  if◌then◌else◌, ltb, leb, ◌==◌, max64, wrap64, Result, ok, err, einval, enomem, espipe, enotty,
  eunatch,
}
use casync.Action.{Action}

-- `CaLocationDesignator`; a value that is none of these does not arise.
pub data Designator : Type 0 where
  entry payload filename goodbye void : Designator

-- `CaLocation`, without the count of its owners and the text it was formatted as. `root` is the address of the root
-- object, 0 if there is none.
pub record Location : Type 0 where
  pub designator : Designator
  pub path : Option (List ℕ)
  pub offset : ℕ
  pub size : ℕ
  pub root : ℕ

-- `CaFileRoot`, as far as it is read here. `fd` is none where it is negative.
pub record FileRoot : Type 0 where
  pub fd : Option ℕ
  pub path : Option (List ℕ)
  pub invalidated : Bool

-- Whether an object has one owner, whether there is memory for a new object, and for an array of so many objects
pub record Memory : Type 0 where
  pub sole : Location → Bool
  pub allocate : Location → Bool
  pub allocate_array : ℕ → Bool

abbrev pub designator_code : Designator → ℕ
designator_code entry = 101
designator_code payload = 112
designator_code filename = 110
designator_code goodbye = 103
designator_code void = 118

abbrev pub is_void : Designator → Bool
is_void void = true
is_void _ = false

abbrev pub is_set {ℓ} : {A : Type ℓ} → Option A → Bool
is_set none = false
is_set (some a) = true

abbrev pub equal_bytes : List ℕ → List ℕ → Bool
equal_bytes [] [] = true
equal_bytes (x ∷ xs) (y ∷ ys) = (x == y) && equal_bytes xs ys
equal_bytes _ _ = false

-- `streq_ptr`
abbrev pub same_path : Option (List ℕ) → Option (List ℕ) → Bool
same_path none none = true
same_path (some p) (some q) = equal_bytes p q
same_path _ _ = false

-- The location that `ca_location_new` makes
abbrev pub made : Option (List ℕ) → Designator → ℕ → ℕ → Location
made path designator offset size = record {
  designator = designator;
  path = path;
  offset = if is_void designator then 0 else offset;
  size = size;
  root = 0;
}

-- A copy with another root, for an object that has other owners
abbrev pub copy_as : Location → ℕ → Bool → Result Location → Location × Result Bool
copy_as l root done (err e) = (l, err e)
copy_as l root done (ok n) = (record n { root = root }, ok done)

module _ (memory : Memory) where
  -- `ca_location_new`
  unfoldable pub new_location : Option (List ℕ) → Designator → ℕ → ℕ → Result Location
  new_location path designator offset size =
      if size == 0
      then err einval
      else if is_void designator && is_set path
      then err einval
      else if not (size == max64) && ltb (wrap64 (offset + size)) offset
      then err einval
      else if not (memory.allocate (made path designator offset size))
      then err enomem
      else ok (made path designator offset size)

  -- `ca_location_patch_size`; the Boolean is the result 1 or 0.
  unfoldable pub patch_size : Bool → ℕ → Action Location Bool
  patch_size sole size l =
      if l.size == size
      then (l, ok false)
      else if sole
      then (record l { size = size }, ok true)
      else copy_as l l.root true (new_location l.path l.designator l.offset size)

  -- `ca_location_patch_root`
  unfoldable pub patch_root : ℕ → Action Location Bool
  patch_root root l =
      if l.root == root
      then (l, ok false)
      else if memory.sole l
      then (record l { root = root }, ok false)
      else copy_as l root false (new_location l.path l.designator l.offset l.size)

  -- `ca_location_advance`
  unfoldable pub advance_location : ℕ → Action Location Bool
  advance_location n l =
      if n == 0
      then (l, ok false)
      else if l.size == max64
      then (l, err espipe)
      else if ltb l.size n
      then (l, err espipe)
      else if memory.sole l
      then (
        record l {
          offset = if is_void l.designator then l.offset else wrap64 (l.offset + n);
          size = l.size - n;
        },
        ok true,
      )
      else copy_as l l.root true
          (new_location l.path l.designator (wrap64 (l.offset + n)) (l.size - n))

  -- `ca_location_merge`
  unfoldable pub merge : Location → Action Location Bool
  merge b a =
      if a.size == max64 || b.size == max64
      then (a, err einval)
      else if not (a.root == b.root)
      then (a, ok false)
      else if not (same_path a.path b.path)
      then (a, ok false)
      else if not (designator_code a.designator == designator_code b.designator)
      then (a, ok false)
      else if not (is_void a.designator) && not (wrap64 (a.offset + a.size) == b.offset)
      then (a, ok false)
      else if memory.sole a
      then (record a { size = wrap64 (a.size + b.size) }, ok true)
      else copy_as a a.root true
          (new_location a.path a.designator a.offset (wrap64 (a.size + b.size)))

-- What `ca_location_open` opens: a copy of a root's descriptor, a path below such, or a path.
pub data Opening : Type 0 where
  duplicate : ℕ → Opening
  open_below : ℕ → List ℕ → Opening
  open_path : List ℕ → Opening

-- `isempty`
abbrev pub or_empty : Option (List ℕ) → List ℕ
or_empty none = []
or_empty (some p) = p

-- The path from the path of a root and the one below it
unfoldable pub joined : List ℕ → List ℕ → List ℕ
joined [] [] = 47 ∷ []
joined (x ∷ xs) [] = x ∷ xs
joined [] (y ∷ ys) = y ∷ ys
joined (x ∷ xs) (y ∷ ys) = (x ∷ xs) ++ (47 ∷ y ∷ ys)

abbrev pub open_in : ℕ → List ℕ → Opening
open_in fd [] = duplicate fd
open_in fd (y ∷ ys) = open_below fd (y ∷ ys)

-- `ca_location_open`, up to the system call
unfoldable pub open_location : (ℕ → FileRoot) → Location → Result Opening
open_location roots l =
    if is_void l.designator
    then err enotty
    else if l.root == 0
    then err eunatch
    else if (roots l.root).invalidated
    then err eunatch
    else elim (roots l.root).fd [
      | some fd ↦ ok (open_in fd (or_empty l.path))
      | none ↦ ok (open_path (joined (or_empty (roots l.root).path) (or_empty l.path)))
    ]
