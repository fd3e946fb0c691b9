-- ===== src/Ring.antt =====
-- relay/internal/session/ringbuffer.go: the scrollback ring of a session. The mutex is held over
-- each method, so a method is one step; a method that writes `*r` returns the new ring.
pub mod Slots
pub mod Circle
pub mod Contents
pub mod Holds
pub mod Branches
pub mod Recent
mod Tests
use httpssh.Base.{
  ℕ, ◌+◌, ◌-◌, ◌%◌, Bool, ℤ, pos, negsuc, non_positive, to_nat, List, [], ◌∷◌, ◌++◌, ltb, leb, ◌==◌,
  if◌then◌else◌, length, take, drop, replicate,
}

pub record RingBuffer : Type 0 where
  pub buf : List ℕ
  pub head : ℕ
  pub size : ℕ

-- Go's `copy(dst, src)`: as many bytes as both have.
unfoldable pub copy : List ℕ → List ℕ → List ℕ
copy [] src = []
copy (d ∷ dst) [] = d ∷ dst
copy (d ∷ dst) (b ∷ src) = b ∷ copy dst src

-- `copy(dst[at:], src)`
unfoldable pub copy_at : List ℕ → ℕ → List ℕ → List ℕ
unfolding copy
copy_at dst at src = take at dst ++ copy (drop at dst) src

-- `cap(r.buf)`; the slice is made at its capacity.
abbrev pub capacity : RingBuffer → ℕ
capacity r = length r.buf

unfoldable pub new_ring_buffer : ℤ → RingBuffer
new_ring_buffer asked =
    let n = if non_positive asked then 1 else to_nat asked in
    record { buf = replicate n 0; head = 0; size = 0 }

unfoldable pub write_at_head : List ℕ → ℕ → List ℕ → List ℕ × ℕ
unfolding copy_at
write_at_head buf head p =
    let c = length buf in
    let at = (head + c) % c in
    let first = c - at in
    let buf' =
      if leb (length p) first
      then copy_at buf at p
      else copy (copy_at buf at (take first p)) (drop first p) in
    (buf', (at + length p) % c)

abbrev pub overwrite : RingBuffer → List ℕ × ℕ → RingBuffer
overwrite r (buf, head) = record { buf = buf; head = head; size = length r.buf }

unfoldable pub write : RingBuffer → List ℕ → RingBuffer
unfolding write_at_head copy_at copy
write r p =
    let c = capacity r in
    let free = c - r.size in
    if length p == 0
    then r
    else if leb c (length p)
    then record { buf = copy r.buf (drop (length p - c) p); head = 0; size = c }
    else if ltb r.size c
    then (if leb (length p) free
        then record r { buf = copy_at r.buf r.size p; size = r.size + length p }
        else overwrite r (write_at_head (copy_at r.buf r.size (take free p)) 0 (drop free p)))
    else overwrite r (write_at_head r.buf r.head p)

unfoldable pub snapshot : RingBuffer → List ℕ
unfolding copy_at copy
snapshot r =
    let out = replicate r.size 0 in
    let c = capacity r in
    let first = c - r.head in
    if r.size == 0
    then out
    else if ltb r.size c
    then copy out (take r.size r.buf)
    else copy_at (copy out (drop r.head r.buf)) first (take r.head r.buf)
