-- ===== src/Files/Loops.antt =====
-- `loop_write` and `loop_read` of src/util.c on a regular file: the rounds are enough, and all that there is is written or
-- read.
use casync.Prelude.{
  ℕ, zero, suc, ◌+◌, ◌-◌, ◌≤◌, ◌<◌, ◌≡◌, refl, sym, ap, ap₂, ◌∙◌, subst, List, [], ◌∷◌, ◌++◌, take,
  drop, length, length-take, length-drop, take-append-drop, drop-drop, append_assoc, append-nil,
  arith, if◌then◌else◌, ltb, ◌==◌, true, false, Result, ok, err, assertion, ℕ_discrete,
  length-append, take-nil,
}
use casync.Files.{
  Files, IsRegular, write_rounds, write_more, loop_write, read_rounds, read_more, and_before,
  loop_read,
}

take_more : {A : Type 0} (m k : ℕ) (xs : List A) → take m xs ++ take k (drop m xs) ≡ take (m + k) xs
take_more zero k xs = ap (λ j. take j xs) {x = k} {y = 0 + k} (omega arith)
take_more (suc m) k [] = take-nil k ∙ sym (take-nil (suc m + k))
take_more (suc m) k (x ∷ xs) =
    ap (λ t. x ∷ t) (take_more m k xs)
    ∙ ap (λ j. take j (x ∷ xs)) {x = suc (m + k)} {y = suc m + k} (omega arith)

module _ {F : Type 0} (files : Files F) (disk : IsRegular files) where
  -- The bytes were added at the end.
  Appends : F × Result (Unit {0}) → F → List ℕ → Type 0
  Appends x f q =
      (x.1 ≡ ok tt)
      × (disk.contents x.0 ≡ disk.contents f ++ q)
      × (disk.position x.0 ≡ disk.position f + length q)

  write_rounds-Appends :
      (rounds : ℕ) (q : List ℕ) (f : F)
      → length q ≤ rounds
      → disk.position f ≡ length (disk.contents f)
      → Appends (write_rounds files rounds q f) f q
  unfolding write_rounds Appends
  write_rounds-Appends zero [] f h at =
      (refl, sym (append-nil (disk.contents f)), omega (arith, at))
  write_rounds-Appends zero (x ∷ q) f h at = absurd (omega arith)
  write_rounds-Appends (suc rounds) [] f h at =
      (refl, sym (append-nil (disk.contents f)), omega (arith, at))
  write_rounds-Appends (suc rounds) (x ∷ q) f h at =
      let (w, got, some_bytes, most, bytes, moved) = disk.write_some f (x ∷ q) (omega arith) at in
      let g = (files.write f (x ∷ q)).0 in
      let test : (length (x ∷ q) == 0) ≡ false = ground arith in
      let fits : ltb (length (x ∷ q)) w ≡ false = ground arith in
      let start : write_rounds files (suc rounds) (x ∷ q) f
          ≡ write_rounds files rounds (drop w (x ∷ q)) g =
        (simp (test, write_rounds))
        ∙ ap (λ r. write_more (x ∷ q) (write_rounds files rounds) (g, r)) got
        ∙ ap (λ t. if t then (g, err assertion) else write_rounds files rounds (drop w (x ∷ q)) g)
            fits in
      let (done, all, there) =
        write_rounds-Appends rounds (drop w (x ∷ q)) g (omega (arith, length-drop w (x ∷ q))) (
          omega (
            arith,
            moved,
            at,
            ap length bytes,
            length-append (disk.contents f) (take w (x ∷ q)),
            length-take w (x ∷ q),
          )) in
      subst (λ y. Appends y f (x ∷ q)) (sym start)
        (
          done,
          all
              ∙ ap (λ b. b ++ drop w (x ∷ q)) bytes
              ∙ append_assoc (disk.contents f) (take w (x ∷ q)) (drop w (x ∷ q))
              ∙ ap (λ b. disk.contents f ++ b) (take-append-drop w (x ∷ q)),
          omega (arith, there, moved, length-drop w (x ∷ q)),
        )

  -- Writing at the end of a file appends all the bytes.
  pub write_end :
      (f : F) (q : List ℕ)
      → disk.position f ≡ length (disk.contents f)
      → ((loop_write files f q).1 ≡ ok tt)
        × (disk.contents (loop_write files f q).0 ≡ disk.contents f ++ q)
        × (disk.position (loop_write files f q).0 ≡ disk.position f + length q)
  unfolding loop_write Appends
  write_end f q at = write_rounds-Appends (length q) q f (omega arith) at

  -- The next bytes were read, as far as there are any.
  Takes : F × Result (List ℕ) → F → ℕ → Type 0
  Takes x f n =
      (x.1 ≡ ok (take n (drop (disk.position f) (disk.contents f))))
      × (disk.contents x.0 ≡ disk.contents f)
      × (disk.position x.0
          ≡ disk.position f + length (take n (drop (disk.position f) (disk.contents f))))

  read_rounds-Takes : (rounds n : ℕ) (f : F) → n ≤ rounds → Takes (read_rounds files rounds n f) f n
  unfolding read_rounds Takes
  read_rounds-Takes zero zero f h = (refl, refl, omega arith)
  read_rounds-Takes zero (suc n) f h = absurd (omega arith)
  read_rounds-Takes (suc rounds) zero f h = (refl, refl, omega arith)
  read_rounds-Takes (suc rounds) (suc n) f h =
      let left = drop (disk.position f) (disk.contents f) in
      let (m, got, most, there, at_end, same, moved) = disk.read_some f (suc n) (omega arith) in
      let g = (files.read f (suc n)).0 in
      let test : (suc n == 0) ≡ false = ground arith in
      let size : length (take m left) ≡ m = omega (arith, length-take m left) in
      let start : read_rounds files (suc rounds) (suc n) f
          ≡ read_more (suc n) (read_rounds files rounds) (g, ok (take m left)) =
        (simp (test, read_rounds))
        ∙ ap (λ r. read_more (suc n) (read_rounds files rounds) (g, r)) got in
      elim (ℕ_discrete m 0) [
        | yes z ↦
            let none_left = at_end z in
            let over : (length (take m left) == 0) ≡ true = ground (arith, size) in
            subst (λ y. Takes y f (suc n))
              (sym (
                start
                ∙ ap
                    (λ t.
                      if t
                      then (g, ok [])
                      else and_before (take m left)
                          (read_rounds files rounds (suc n - length (take m left)) g))
                    over))
              (
                ap ok (sym (take-nil (suc n)) ∙ ap (take (suc n)) (sym none_left)),
                same,
                omega (arith, moved, z, ap (λ b. length (take (suc n) b)) none_left),
              )
        | no z ↦
            let more : (length (take m left) == 0) ≡ false = ground (arith, size) in
            let k = suc n - length (take m left) in
            let (read, kept, there2) = read_rounds-Takes rounds k g (omega (arith, size)) in
            let after : drop (disk.position g) (disk.contents g) ≡ drop m left =
              ap₂ drop moved same ∙ sym (drop-drop m (disk.position f) (disk.contents f)) in
            let joined : take m left ++ take k (drop m left) ≡ take (suc n) left =
              take_more m k left
              ∙ ap (λ j. take j left) {x = m + k} {y = suc n} (omega (arith, size)) in
            subst (λ y. Takes y f (suc n))
              (sym (
                start
                ∙ ap
                    (λ t.
                      if t
                      then (g, ok [])
                      else and_before (take m left) (read_rounds files rounds k g))
                    more
                ∙ ap (λ r. and_before (take m left) ((read_rounds files rounds k g).0, r)) read))
              (
                ap (λ b. ok (take m left ++ take k b)) after ∙ ap ok joined,
                kept ∙ same,
                omega (
                  arith,
                  there2,
                  moved,
                  ap (λ b. length (take k b)) after,
                  ap length joined,
                  length-append (take m left) (take k (drop m left)),
                  size,
                ),
              )
      ]

  -- Reading gives what is asked for, or what there is.
  pub read_there :
      (f : F) (n : ℕ)
      → 0 < n
      → ((loop_read files f n).1 ≡ ok (take n (drop (disk.position f) (disk.contents f))))
        × (disk.contents (loop_read files f n).0 ≡ disk.contents f)
        × (disk.position (loop_read files f n).0
            ≡ disk.position f + length (take n (drop (disk.position f) (disk.contents f))))
  unfolding loop_read Takes
  read_there f n positive =
      let test : (n == 0) ≡ false = ground arith in
      let result : loop_read files f n ≡ read_rounds files n n f = simp (test, loop_read) in
      subst (λ y. Takes y f n) (sym result) (read_rounds-Takes n n f (omega arith))
