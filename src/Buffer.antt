-- ===== src/Buffer.antt =====
-- src/realloc-buffer.c and src/realloc-buffer.h: a growing byte buffer with room at its front. The heap
-- and the page size are a parameter. A pointer into the block is its offset; a function that
-- returns NULL leaves the buffer as it is, and is `none` here.
pub mod Contents
pub mod Shrink
pub mod Grow
pub mod Append
pub mod Fresh
mod Tests
use casync.Prelude.{
  Bool, ℕ, ◌+◌, ◌-◌, ◌*◌, ◌≤◌, ◌<◌, max, Option, none, some, List, [], ◌∷◌, ◌++◌, if◌then◌else◌,
  ltb, leb, ◌==◌, wrap64, align_to, overwrite, take, drop, length, replicate, Result, ok, err,
  einval, enomem,
}

-- `ReallocBuffer`; `block` is what `data` points to.
pub record Buffer : Type 0 where
  pub block : Option (List ℕ)
  pub allocated : ℕ
  pub start : ℕ
  pub end : ℕ

-- BUFFER_SIZE of src/def.h
abbrev pub buffer_size : ℕ
buffer_size = 65536

-- The C library's heap at one call: what a request of so many bytes gives, where it does not fail;
-- `realloc` is told the old block. `page_size` is src/util.c's.
pub record Heap : Type 0 where
  pub malloc : ℕ → Option (List ℕ)
  pub calloc : ℕ → Option (List ℕ)
  pub realloc : List ℕ → ℕ → Option (List ℕ)
  pub page_size : ℕ

abbrev pub bytes : Option (List ℕ) → List ℕ
bytes none = []
bytes (some p) = p

-- `realloc_buffer_size`
abbrev pub size : Buffer → ℕ
size b = b.end - b.start

-- `realloc_buffer_empty`
unfoldable pub empty : Buffer → Buffer
empty b = record b { start = 0; end = 0 }

-- `realloc_buffer_data_offset`
unfoldable pub data_offset : Buffer → ℕ → Option ℕ
data_offset b offset =
    let p = wrap64 (b.start + offset) in
    if ltb p b.start then none else if ltb b.end p then none else some p

-- What is written through a pointer that `extend` returned. Where there is no block, the pointer is to
-- the buffer itself, and no byte is written.
pub store : Buffer → ℕ → List ℕ → Buffer
store b at q = elim b.block [ none ↦ b | some p ↦ record b { block = some (overwrite p at q) } ]

module _ (m : Heap) where
  -- The size of a new block: twice the old one or what is needed, in whole pages.
  pub new_size : ℕ → ℕ → ℕ
  new_size doubled needed = align_to (max doubled needed) m.page_size

  -- The block that replaces the old one, with the buffer's bytes at its front.
  pub regrow : Buffer → ℕ → Option (List ℕ)
  regrow b ns = if b.start == 0 then m.realloc (bytes b.block) ns else elim (m.malloc ns) [
    | none ↦ none
    | some p ↦ some (overwrite p 0 (drop b.start (take b.end (bytes b.block))))
  ]

  -- `realloc_buffer_acquire`
  unfoldable pub acquire : Buffer → ℕ → Option (Buffer × ℕ)
  acquire b size =
      let ne = wrap64 (b.start + size) in
      let na = wrap64 (b.allocated * 2) in
      let ns = new_size na size in
      if size == 0
      then some (empty b, 0)
      else if ltb ne b.start
      then none
      else if leb ne b.allocated
      then some (record b { end = ne }, b.start)
      else if ltb na b.allocated
      then none
      else elim (regrow b ns) [
        | none ↦ none
        | some p ↦ some (record { block = some p; allocated = ns; start = 0; end = size }, 0)
      ]

  -- `realloc_buffer_acquire0`
  unfoldable pub acquire0 : Buffer → ℕ → Option (Buffer × ℕ)
  acquire0 b size =
      let na = wrap64 (b.allocated * 2) in
      let ns = new_size na size in
      if size == 0
      then some (empty b, 0)
      else if ltb size b.allocated
      then some (
        record b {
          block = some (overwrite (bytes b.block) 0 (replicate size 0));
          start = 0;
          end = size;
        },
        0,
      )
      else if leb na b.allocated
      then none
      else elim (m.calloc ns) [
        | none ↦ none
        | some p ↦ some (record { block = some p; allocated = ns; start = 0; end = size }, 0)
      ]

  -- `realloc_buffer_extend`
  unfoldable pub extend : Buffer → ℕ → Option (Buffer × ℕ)
  extend b add =
      let total = wrap64 (size b + add) in
      if ltb total (size b)
      then none
      else elim (acquire b total) [ none ↦ none | some (b', p) ↦ some (b', p + size b) ]

  -- `realloc_buffer_extend0`
  unfoldable pub extend0 : Buffer → ℕ → Option (Buffer × ℕ)
  extend0 b add = elim (extend b add) [
    | none ↦ none
    | some (b', p) ↦ some (store b' p (replicate add 0), p)
  ]

  -- `realloc_buffer_append`
  unfoldable pub append : Buffer → List ℕ → Option (Buffer × ℕ)
  append b q = elim (extend b (length q)) [ none ↦ none | some (b', p) ↦ some (store b' p q, p) ]

-- `realloc_buffer_free`
unfoldable pub free : Buffer → Buffer
free b = record { block = none; allocated = 0; start = 0; end = 0 }

-- `realloc_buffer_advance`
unfoldable pub advance : Buffer → ℕ → Result Buffer
advance b sz =
    let ns = wrap64 (b.start + sz) in
    if sz == 0
    then ok b
    else if ltb ns b.start
    then err einval
    else if ltb b.end ns
    then err einval
    else if ns == b.end
    then ok (empty b)
    else ok (record b { start = ns })

-- `realloc_buffer_shorten`
unfoldable pub shorten : Buffer → ℕ → Result Buffer
shorten b sz =
    if ltb (size b) sz
    then err einval
    else if sz == 0
    then ok b
    else if b.end - sz == b.start
    then ok (empty b)
    else ok (record b { end = b.end - sz })

-- `realloc_buffer_truncate`
unfoldable pub truncate : Buffer → ℕ → Result Buffer
truncate b sz =
    if sz == 0
    then ok (empty b)
    else if ltb (size b) sz
    then err einval
    else ok (record b { end = wrap64 (b.start + sz) })

-- `realloc_buffer_steal`: the buffer, freed, and the pointer that is handed over. `memdup` is src/util.c's.
unfoldable pub steal : Heap → Buffer → Option (Buffer × Option (List ℕ))
steal m b = if b.start == 0 then some (free b, b.block) else elim (m.malloc (size b)) [
  | none ↦ none
  | some p ↦ some (free b, some (overwrite p 0 (drop b.start (take b.end (bytes b.block)))))
]

-- A shortening whose result the caller does not look at.
pub shortened : Buffer → ℕ → Buffer
shortened b sz = elim (shorten b sz) [ ok b' ↦ b' | err e ↦ b ]

-- `realloc_buffer_read`, given whether the descriptor is one, and what read() gives: its bytes, or the
-- errno. The result says whether there was a byte.
unfoldable pub read : Heap → Buffer → Bool → Result (List ℕ) → Buffer × Result Bool
read m b fd_valid input =
    if fd_valid
    then elim (extend m b buffer_size) [
      | none ↦ (b, err enomem)
      | some (b', p) ↦ elim input [
        | err e ↦ (shortened b' buffer_size, err e)
        | ok q ↦ (shortened (store b' p q) (buffer_size - length q), ok (ltb 0 (length q)))
      ]
    ]
    else (b, err einval)
