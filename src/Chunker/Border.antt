-- ===== src/Chunker/Border.antt =====
-- Where chunks end, as a function of the bytes alone: the specification that `ca_chunker_scan` of
-- src/cachunker.c is held against.
use Prim.Native.Nat.{max}
use mathlib.Core.Option
use casync.Prelude.{
  ℕ, suc, ◌+◌, ◌-◌, ◌%◌, ◌≤◌, ◌<◌, ◌≡◌, refl, sym, ap, ◌∙◌, List, [], ◌∷◌, ◌++◌, arith, length,
  drop, length-append, append-nil, append_assoc, Bool, true, false, ◌&&◌, ◌||◌, leb, ◌==◌,
  if◌then◌else◌, Option, none, some, Bool-cases, Option-cases, inl, inr,
}
use casync.Chunker.{window_length}
use casync.Chunker.Rolling.{hash}

-- The last 48 bytes.
abbrev pub recent : List ℕ → List ℕ
recent s = drop (length s - window_length) s

-- The first answer, or the second one counted from `n` on.
abbrev pub resume : ℕ → Option ℕ → Option ℕ → Option ℕ
resume n (some k) later = some k
resume n none later = Option.map (λ k. n + k) later

resume_zero : (o : Option ℕ) → resume 0 none o ≡ o
resume_zero none = refl
resume_zero (some k) = ap some (omega arith)

resume-suc :
    (n : ℕ) (o later : Option ℕ)
    → Option.map suc (resume n o later) ≡ resume (suc n) (Option.map suc o) later
resume-suc n (some k) later = refl
resume-suc n none none = refl
resume-suc n none (some k) = ap some (omega arith)

module _ (lo hi d : ℕ) where
  -- A chunk may end behind the bytes `s` of it: it is a whole window at least, and it is as large as
  -- allowed, or large enough with a hash of the last 48 bytes that is right.
  unfoldable pub ends : List ℕ → Bool
  ends s =
      leb window_length (length s)
      && (leb hi (length s) || (leb lo (length s) && (hash (recent s) % d == d - 1)))

  -- How many bytes of `q` belong to a chunk that has the bytes `s` so far, if it ends in `q`.
  unfoldable pub border : List ℕ → List ℕ → Option ℕ
  border s [] = none
  border s (x ∷ q) = if ends (s ++ x ∷ []) then some 1 else Option.map suc (border (s ++ x ∷ []) q)

  snoc_length : (s : List ℕ) (x : ℕ) → length (s ++ x ∷ []) ≡ suc (length s)
  snoc_length s x = omega (arith, length-append s (x ∷ []))

  ends_large : (s : List ℕ) → lo ≤ hi → ends s ≡ true → (window_length ≤ length s) × (lo ≤ length s)
  unfolding ends
  ends_large s order e = ground arith

  open_small : (s : List ℕ) → ends s ≡ false → length s < max hi window_length
  unfolding ends
  open_small s e = ground arith

  -- The border lies within the data, a whole window from the start of the chunk, and the chunk has
  -- at least the smallest size and at most the largest one (or the window, if that is larger).
  pub border_bounds :
      (s q : List ℕ) {n : ℕ}
      → lo ≤ hi
      → length s < max hi window_length
      → border s q ≡ some n
      → (1 ≤ n)
        × (n ≤ length q)
        × (window_length ≤ length s + n)
        × (lo ≤ length s + n)
        × (length s + n ≤ max hi window_length)
  unfolding border
  border_bounds s [] order room e = cc
  border_bounds s (x ∷ q) {n} order room e = elim (Bool-cases (ends (s ++ x ∷ []))) [
    | inl here ↦ ground (arith, snoc_length s x, ends_large (s ++ x ∷ []) order here)
    | inr later ↦ elim (Option-cases (border (s ++ x ∷ []) q)) [
      | inl nowhere ↦ ground (arith, later, nowhere)
      | inr (m, found) ↦ ground (
        arith,
        later,
        found,
        snoc_length s x,
        border_bounds (s ++ x ∷ []) q order (open_small (s ++ x ∷ []) later) found,
      )
    ]
  ]

  -- Looking at data in two pieces finds the border that looking at it at once does.
  pub border-append :
      (s a b : List ℕ) → border s (a ++ b) ≡ resume (length a) (border s a) (border (s ++ a) b)
  unfolding border
  border-append s [] b = rw append-nil (sym (resume_zero (border s b)))
  border-append s (x ∷ a) b = elim (Bool-cases (ends (s ++ x ∷ []))) [
    | inl here ↦ rw here
    | inr later ↦ rw later (
        ap (Option.map suc) (border-append (s ++ x ∷ []) a b)
        ∙ resume-suc (length a) (border (s ++ x ∷ []) a) (border ((s ++ x ∷ []) ++ a) b)
        ∙ ap (λ t. resume (suc (length a)) (Option.map suc (border (s ++ x ∷ []) a)) (border t b))
            (append_assoc s (x ∷ []) a))
  ]
