-- ===== src/Ring/Branches.antt =====
-- relay/internal/session/ringbuffer.go: the branches of `Write` that a ring takes whole.
use httpssh.Base.{
  ℕ, ◌+◌, ◌-◌, ◌≤◌, ◌<◌, ◌≡◌, refl, sym, ◌∙◌, subst, List, [], ◌∷◌, ◌++◌, arith, length, drop,
  length-append, length-drop, append-nil,
}
use httpssh.Ring.Slots.{length-copy}
use httpssh.Ring.Circle.{Overwritten, write_at_head-Overwritten}
use httpssh.Ring.{RingBuffer, copy, copy_at, capacity, write_at_head, overwrite, snapshot}
use httpssh.Ring.Contents.{IsValid, take_last, copy_over, snapshot_full, length-snapshot}
use httpssh.Ring.Holds.{
  Holds, Holds-filled, take_last_all, take_last-append, Holds-overwrite, Holds-append,
}

-- The newest bytes, when there are no new ones, and when the new ones are all that fits.
pub Holds-empty :
    (r : RingBuffer) (p : List ℕ)
    → IsValid r
    → length p ≡ 0
    → Holds (capacity r) (take_last (capacity r) (snapshot r ++ p)) r
Holds-empty r [] v e = record {
  valid = v;
  same_capacity = refl;
  contents =
      sym (append-nil (snapshot r))
      ∙ sym (
          take_last_all (capacity r) (snapshot r ++ [])
            (omega (arith, length-append (snapshot r) [], length-snapshot r v, v.bounded)));
}
Holds-empty r (b ∷ p) v e = absurd (omega arith)

pub Holds-long :
    (r : RingBuffer) (p : List ℕ)
    → IsValid r
    → capacity r ≤ length p
    → Holds
        (capacity r)
        (take_last (capacity r) (snapshot r ++ p))
        (record { buf = copy r.buf (drop (length p - capacity r) p); head = 0; size = capacity r })
Holds-long r p v long =
    let last : List ℕ = drop (length p - capacity r) p in
    let nl : length last ≡ capacity r = omega (arith, length-drop (length p - capacity r) p) in
    Holds-filled (capacity r) (take_last (capacity r) (snapshot r ++ p)) (copy r.buf last)
      v.positive (length-copy r.buf last)
      (copy_over r.buf last nl ∙ sym (take_last-append (capacity r) (snapshot r) p long))

pub Holds-fits :
    (r : RingBuffer) (p : List ℕ)
    → IsValid r
    → r.size < capacity r
    → length p ≤ capacity r - r.size
    → Holds
        (capacity r)
        (take_last (capacity r) (snapshot r ++ p))
        (record r { buf = copy_at r.buf r.size p; size = r.size + length p })
Holds-fits r p v growing fits =
    subst
      (λ xs.
        Holds (capacity r) xs (record r { buf = copy_at r.buf r.size p; size = r.size + length p }))
      (sym (
        take_last_all (capacity r) (snapshot r ++ p)
          (omega (arith, length-append (snapshot r) p, length-snapshot r v))))
      (Holds-append r p v growing (omega arith))

pub Holds-full :
    (r : RingBuffer) (p : List ℕ)
    → IsValid r
    → capacity r ≤ r.size
    → length p < capacity r
    → Holds
        (capacity r)
        (take_last (capacity r) (snapshot r ++ p))
        (overwrite r (write_at_head r.buf r.head p))
Holds-full r p v full short =
    Holds-overwrite (capacity r) (snapshot r) p r (write_at_head r.buf r.head p) v.positive refl
      (omega (arith, length-snapshot r v, v.bounded)) short
      (subst (λ old. Overwritten old p (capacity r) (write_at_head r.buf r.head p))
        (sym (snapshot_full r v full)) (write_at_head-Overwritten r.buf r.head p v.on_slot short))
