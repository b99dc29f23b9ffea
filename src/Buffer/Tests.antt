-- ===== src/Buffer/Tests.antt =====
-- Runs of the buffer of src/realloc-buffer.c on a small heap, and instances of its theorems.
use casync.Prelude.{
  ℕ, ◌-◌, ◌≤◌, ◌<◌, ◌≡◌, ◌⊎◌, refl, List, [], ◌∷◌, ◌++◌, arith, align_to, overwrite, take, drop,
  length, replicate, length-replicate, length-append, length-take, take-append_le, take-take, some,
  none, ok, err, einval, enomem, true, sym, ap, ◌∙◌,
}
use mathlib.Core.Option.{some-injective}
use casync.Buffer.{
  Buffer, Heap, bytes, size, buffer_size, acquire, acquire0, extend, extend0, append, advance,
  shorten, truncate, steal, read, free, empty,
}
use casync.Buffer.Contents.{IsValid, IsHeap, contents}
use casync.Buffer.Grow.{Acquired, acquire-Acquired}
use casync.Buffer.Shrink.{advance_lem, shorten_lem, truncate_lem}
use casync.Buffer.Append.{Refused, append_lem, extend0_lem, read_lem}
use casync.Buffer.Fresh.{acquire0_lem, acquire0_without_memory, steal_lem}

-- A heap that never fails: fresh memory holds sevens, and what realloc() adds holds nines.
abbrev heap : Heap
heap = record {
  malloc = λ n. some (replicate n 7);
  calloc = λ n. some (replicate n 0);
  realloc = λ old n. some (take n old ++ replicate (n - length old) 9);
  page_size = 1;
}

heap-IsHeap : IsHeap heap
heap-IsHeap = record {
  malloc_length = λ n e. ap length (sym (some-injective _ _ e)) ∙ length-replicate n 7;
  calloc_zero = λ n e. sym (some-injective _ _ e);
  realloc_length = λ old n e. ap length (sym (some-injective _ _ e)) ∙ grown old n;
  realloc_keeps = λ old n k e h h'. ap (take k) (sym (some-injective _ _ e)) ∙ kept old n k h h';
  page_bits = 0;
  page_power = refl;
  page_small = omega arith;
}
  where
    grown : (old : List ℕ) (n : ℕ) → length (take n old ++ replicate (n - length old) 9) ≡ n
    grown old n = omega (
      arith,
      length-append (take n old) (replicate (n - length old) 9),
      length-take n old,
      length-replicate {A = ℕ} (n - length old) 9,
    )

    kept :
        (old : List ℕ) (n k : ℕ)
        → k ≤ length old
        → k ≤ n
        → take k (take n old ++ replicate (n - length old) 9) ≡ take k old
    kept old n k h h' =
        take-append_le (take n old) (replicate (n - length old) 9) k
          (omega (arith, length-take n old))
        ∙ take-take k n old h'

-- Four bytes, of which the second and the third are the contents.
abbrev two_of_four : Buffer
two_of_four = record { block = some (1 ∷ 2 ∷ 3 ∷ 4 ∷ []); allocated = 4; start = 1; end = 3 }

two_of_four-IsValid : IsValid two_of_four
two_of_four-IsValid = record {
  order = omega arith;
  within = omega arith;
  sized = refl;
  word = omega arith;
}

abbrev unused : Buffer
unused = record { block = none; allocated = 0; start = 0; end = 0 }

unused-IsValid : IsValid unused
unused-IsValid = record {
  order = omega arith;
  within = omega arith;
  sized = refl;
  word = omega arith;
}

abbrev six : Buffer
six = record {
  block = some (2 ∷ 3 ∷ 5 ∷ 6 ∷ 7 ∷ 7 ∷ 7 ∷ 7 ∷ []);
  allocated = 8;
  start = 0;
  end = 4;
}

acquire-six :
    acquire heap two_of_four 4
    ≡ some (record six { block = some (2 ∷ 3 ∷ 7 ∷ 7 ∷ 7 ∷ 7 ∷ 7 ∷ 7 ∷ []) }, 0)
unfolding acquire align_to overwrite casync.Buffer.regrow casync.Buffer.new_size
acquire-six = refl

append-six : append heap two_of_four (5 ∷ 6 ∷ []) ≡ some (six, 2)
unfolding append extend acquire align_to overwrite casync.Buffer.regrow casync.Buffer.store
    casync.Buffer.new_size
append-six = refl

extend0-one :
    extend0 heap two_of_four 1
    ≡ some (record two_of_four { block = some (1 ∷ 2 ∷ 3 ∷ 0 ∷ []); end = 4 }, 3)
unfolding extend0 extend acquire align_to overwrite casync.Buffer.store casync.Buffer.new_size
extend0-one = refl

acquire0-three :
    acquire0 heap two_of_four 3
    ≡ some (record two_of_four { block = some (0 ∷ 0 ∷ 0 ∷ 4 ∷ []); start = 0 }, 0)
unfolding acquire0 align_to overwrite casync.Buffer.new_size
acquire0-three = refl

steal-two : steal heap two_of_four ≡ some (unused, some (2 ∷ 3 ∷ []))
unfolding steal free overwrite
steal-two = refl

acquire-Acquired_example :
    Acquired two_of_four 4 (record six { block = some (2 ∷ 3 ∷ 7 ∷ 7 ∷ 7 ∷ 7 ∷ 7 ∷ 7 ∷ []) }) 0
acquire-Acquired_example =
    acquire-Acquired heap heap-IsHeap two_of_four two_of_four-IsValid 4 (omega arith) acquire-six

append_lem_example : IsValid six × (contents six ≡ contents two_of_four ++ (5 ∷ 6 ∷ []))
append_lem_example =
    append_lem heap heap-IsHeap two_of_four two_of_four-IsValid (5 ∷ 6 ∷ []) (omega arith)
      append-six

extend0_lem_example :
    IsValid (record two_of_four { block = some (1 ∷ 2 ∷ 3 ∷ 0 ∷ []); end = 4 })
    × (contents (record two_of_four { block = some (1 ∷ 2 ∷ 3 ∷ 0 ∷ []); end = 4 })
        ≡ contents two_of_four ++ replicate 1 0)
extend0_lem_example =
    extend0_lem heap heap-IsHeap two_of_four two_of_four-IsValid 1 (omega arith) extend0-one

acquire0_lem_example :
    IsValid (record two_of_four { block = some (0 ∷ 0 ∷ 0 ∷ 4 ∷ []); start = 0 })
    × (contents (record two_of_four { block = some (0 ∷ 0 ∷ 0 ∷ 4 ∷ []); start = 0 })
        ≡ replicate 3 0)
    × (◌≡◌ {A = ℕ} 0 0)
acquire0_lem_example =
    acquire0_lem heap heap-IsHeap two_of_four two_of_four-IsValid 3 (omega arith) acquire0-three

acquire0_without_memory_example : acquire0 heap unused 3 ≡ none
acquire0_without_memory_example = acquire0_without_memory heap unused 3 refl (omega arith)

steal_lem_example :
    IsValid unused
    × (contents unused ≡ [])
    × (unused.allocated ≡ 0)
    × (take 2 (2 ∷ 3 ∷ []) ≡ contents two_of_four)
steal_lem_example = steal_lem heap heap-IsHeap two_of_four two_of_four-IsValid steal-two

read_lem_example :
    let out = read heap two_of_four true (ok (5 ∷ [])) in
    IsValid out.0
    × ((Refused heap heap-IsHeap two_of_four two_of_four-IsValid
          × (out.1 ≡ err enomem)
          × (contents out.0 ≡ contents two_of_four))
        ⊎ ((contents out.0 ≡ contents two_of_four ++ (5 ∷ [])) × (out.1 ≡ ok true)))
read_lem_example =
    read_lem heap heap-IsHeap two_of_four two_of_four-IsValid (ok (5 ∷ [])) (omega arith)
      (omega arith)

advance_lem_example :
    (2 < 1 × (advance two_of_four 1 ≡ err einval))
    ⊎ ((1 ≤ 2)
        × (b : Buffer) × (advance two_of_four 1 ≡ ok b)
        × IsValid b
        × (contents b ≡ drop 1 (contents two_of_four)))
advance_lem_example = advance_lem two_of_four 1 two_of_four-IsValid (omega arith)

shorten_lem_example :
    (2 < 1 × (shorten two_of_four 1 ≡ err einval))
    ⊎ ((b : Buffer) × (shorten two_of_four 1 ≡ ok b)
        × IsValid b
        × (contents b ≡ take 1 (contents two_of_four)))
shorten_lem_example = shorten_lem two_of_four 1 two_of_four-IsValid

truncate_lem_example :
    (2 < 1 × (truncate two_of_four 1 ≡ err einval))
    ⊎ ((b : Buffer) × (truncate two_of_four 1 ≡ ok b)
        × IsValid b
        × (contents b ≡ take 1 (contents two_of_four)))
truncate_lem_example = truncate_lem two_of_four 1 two_of_four-IsValid
