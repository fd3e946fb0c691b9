-- ===== src/Ring/Slots.antt =====
-- relay/internal/session/ringbuffer.go: `copy` into a slice, and `writeAtHead` on the circle of slots.
use httpssh.Base.{
  ℕ, suc, ◌+◌, ◌≤◌, ◌≡◌, refl, ap, ◌∙◌, List, [], ◌∷◌, ◌++◌, arith, length, take, drop,
  length-append, length-take, length-drop, drop-append_ge, take-append_ge, append-nil, drop-drop,
}
use httpssh.Ring.{copy, copy_at}

pub length-copy : (dst src : List ℕ) → length (copy dst src) ≡ length dst
unfolding copy
length-copy [] src = refl
length-copy (d ∷ dst) [] = refl
length-copy (d ∷ dst) (b ∷ src) = ap suc (length-copy dst src)

-- A source that fits is copied whole, and what it does not reach stays.
pub copy_fit :
    (dst src : List ℕ) → length src ≤ length dst → copy dst src ≡ src ++ drop (length src) dst
unfolding copy
copy_fit [] [] h = refl
copy_fit [] (b ∷ src) h = absurd (omega arith)
copy_fit (d ∷ dst) [] h = refl
copy_fit (d ∷ dst) (b ∷ src) h = ap (◌∷◌ b) (copy_fit dst src (omega arith))

pub copy_at_fit :
    (dst : List ℕ) (at : ℕ) (src : List ℕ)
    → at + length src ≤ length dst
    → copy_at dst at src ≡ take at dst ++ (src ++ drop (at + length src) dst)
unfolding copy_at
copy_at_fit dst at src h = ap (◌++◌ (take at dst)) (
    copy_fit (drop at dst) src (omega (arith, length-drop at dst))
    ∙ ap (◌++◌ src) (drop-drop (length src) at dst))

pub length-copy_at :
    (dst : List ℕ) (at : ℕ) (src : List ℕ) → length (copy_at dst at src) ≡ length dst
unfolding copy_at
length-copy_at dst at src = omega (
  arith,
  length-append (take at dst) (copy (drop at dst) src),
  length-copy (drop at dst) src,
  length-take at dst,
  length-drop at dst,
)

pub drop-length_append : (n : ℕ) (xs ys : List ℕ) → n ≡ length xs → drop n (xs ++ ys) ≡ ys
drop-length_append n xs ys h =
    drop-append_ge n xs ys (omega arith) ∙ ap (λ k. drop k ys) {y = 0} (omega arith)

pub take-length_append : (n : ℕ) (xs ys : List ℕ) → n ≡ length xs → take n (xs ++ ys) ≡ xs
take-length_append n xs ys h =
    take-append_ge n xs ys (omega arith)
    ∙ ap (λ k. xs ++ take k ys) {y = 0} (omega arith)
    ∙ append-nil xs
