-- ===== src/Files.antt =====
-- What the program asks of the system's files: the interface, and what is documented of regular files that
-- are read and written without errors.
pub mod Loops
use Prim.Native.String.{String}
use casync.Prelude.{
  ℕ, zero, suc, ◌+◌, ◌-◌, ◌≤◌, ◌<◌, ◌≡◌, Bool, true, Option, List, [], ◌++◌, take, drop, length,
  if◌then◌else◌, ltb, ◌==◌, Result, ok, err, assertion, einval, fuel_spent,
}

-- The access mode of open(): O_RDONLY, O_WRONLY, O_RDWR. The last two stand for O_CREAT|O_EXCL too, and each for
-- O_CLOEXEC|O_NOCTTY.
pub data Access : Type 0 where
  rdonly wronly rdwr : Access

-- The calls on an open file `F`; each gives the file afterwards. `write` gives how many bytes were written, `read`
-- the bytes that were read, and `fstat` whether the file is a regular one, and its size.
pub record Files (F : Type 0) : Type 0 where
  pub open_file : Access → String → ℕ → Result F
  pub write : F → List ℕ → F × Result ℕ
  pub read : F → ℕ → F × Result (List ℕ)
  pub lseek : F → ℕ → F × Result (Unit {0})
  pub pread : F → ℕ → ℕ → F × Result (List ℕ)
  pub pwrite : F → List ℕ → ℕ → F × Result ℕ
  pub fstat : F → Result (Bool × ℕ)
  pub rename : String → String → Result (Unit {0})
  pub temporary_name : Option String → Result String

module _ {F : Type 0} where
  abbrev pub write_more :
      List ℕ → (List ℕ → F → F × Result (Unit {0})) → F × Result ℕ → F × Result (Unit {0})
  write_more q more (f, err e) = (f, err e)
  write_more q more (f, ok w) = if ltb (length q) w then (f, err assertion) else more (drop w q) f

  abbrev pub and_before : List ℕ → F × Result (List ℕ) → F × Result (List ℕ)
  and_before b (f, err e) = (f, err e)
  and_before b (f, ok rest) = (f, ok (b ++ rest))

  abbrev pub read_more :
      ℕ → (ℕ → F → F × Result (List ℕ)) → F × Result (List ℕ) → F × Result (List ℕ)
  read_more n more (f, err e) = (f, err e)
  read_more n more (f, ok b) =
      if length b == 0 then (f, ok []) else and_before b (more (n - length b) f)

module _ {F : Type 0} (files : Files F) where
  -- The loop of `loop_write` in src/util.c, with so many rounds
  unfoldable pub write_rounds : ℕ → List ℕ → F → F × Result (Unit {0})
  write_rounds zero q f = if length q == 0 then (f, ok tt) else (f, err fuel_spent)
  write_rounds (suc rounds) q f =
      let next = write_more q (write_rounds rounds) (files.write f q) in
      if length q == 0 then (f, ok tt) else next

  -- `loop_write`. A write() that writes nothing is repeated for ever; the model has a round for each byte.
  unfoldable pub loop_write : F → List ℕ → F × Result (Unit {0})
  loop_write f q = write_rounds (length q) q f

  -- The loop of `loop_read`
  unfoldable pub read_rounds : ℕ → ℕ → F → F × Result (List ℕ)
  read_rounds zero n f = if n == 0 then (f, ok []) else (f, err fuel_spent)
  read_rounds (suc rounds) n f =
      let next = read_more n (read_rounds rounds) (files.read f n) in
      if n == 0 then (f, ok []) else next

  -- `loop_read`
  unfoldable pub loop_read : F → ℕ → F × Result (List ℕ)
  loop_read f n = if n == 0 then (f, err einval) else read_rounds n n f

-- Regular files, with no error of the device: the bytes in them, and where the next byte is read or written. A call
-- reads or writes at least a byte, unless there is none, but not always all that it is asked for.
pub record IsRegular {F : Type 0} (files : Files F) : Type 0 where
  pub contents : F → List ℕ
  pub position : F → ℕ
  pub write_some :
      (f : F) (q : List ℕ)
      → 0 < length q
      → position f ≡ length (contents f)
      → (w : ℕ) × ((files.write f q).1 ≡ ok w)
        × (0 < w)
        × (w ≤ length q)
        × (contents (files.write f q).0 ≡ contents f ++ take w q)
        × (position (files.write f q).0 ≡ position f + w)
  pub read_some :
      (f : F) (n : ℕ)
      → 0 < n
      → (m : ℕ) × ((files.read f n).1 ≡ ok (take m (drop (position f) (contents f))))
        × (m ≤ n)
        × (m ≤ length (drop (position f) (contents f)))
        × (m ≡ 0 → drop (position f) (contents f) ≡ [])
        × (contents (files.read f n).0 ≡ contents f)
        × (position (files.read f n).0 ≡ position f + m)
  pub seek_there :
      (f : F) (p : ℕ)
      → ((files.lseek f p).1 ≡ ok tt)
        × (contents (files.lseek f p).0 ≡ contents f)
        × (position (files.lseek f p).0 ≡ p)
  pub pread_there :
      (f : F) (n p : ℕ)
      → ((files.pread f n p).1 ≡ ok (take n (drop p (contents f))))
        × (contents (files.pread f n p).0 ≡ contents f)
        × (position (files.pread f n p).0 ≡ position f)
  pub regular : (f : F) → files.fstat f ≡ ok (true, length (contents f))
