-- ===== src/Ring/Contents.antt =====
-- relay/internal/session/ringbuffer.go: what `Snapshot` shows of a ring, growing and full.
use httpssh.Base.{
  ℕ, zero, ◌+◌, ◌-◌, ◌≤◌, ◌<◌, ◌≡◌, refl, sym, ap, ◌∙◌, inl, inr, ℤ, pos, negsuc, List, ◌++◌, arith,
  ltb, ◌==◌, ltb→lt, lt→ltb, le→ltb-false, ltb-false→le, ==_iff, Bool-cases, length, take, drop,
  replicate, length-append, length-take, length-drop, length-replicate, append-nil, drop_all,
}
use httpssh.Ring.Slots.{copy_fit, copy_at_fit, take-length_append}
use httpssh.Ring.Circle.{unrolled}
use httpssh.Ring.{RingBuffer, copy, copy_at, capacity, new_ring_buffer, snapshot}

-- What the methods keep: a capacity of at least one byte, a head on a slot, and a head that stays
-- at the first slot until the buffer is full.
pub record IsValid (r : RingBuffer) : Type 0 where
  pub positive : 0 < capacity r
  pub bounded : r.size ≤ capacity r
  pub on_slot : r.head < capacity r
  pub growing : r.size < capacity r → r.head ≡ 0

-- The newest `n` items.
abbrev pub take_last {ℓ} : {A : Type ℓ} → ℕ → List A → List A
take_last n xs = drop (length xs - n) xs

pub new_ring_buffer-IsValid : (asked : ℤ) → IsValid (new_ring_buffer asked)
unfolding new_ring_buffer
new_ring_buffer-IsValid (pos n) = ground (arith, length-replicate n (zero), length-replicate 1 zero)
new_ring_buffer-IsValid (negsuc n) = ground arith

pub copy_over : (dst src : List ℕ) → length src ≡ length dst → copy dst src ≡ src
copy_over dst src e =
    copy_fit dst src (omega arith)
    ∙ ap (◌++◌ src) (drop_all (length src) dst (omega arith))
    ∙ append-nil src

-- A buffer that is not full holds its bytes from the first slot on.
pub snapshot_growing : (r : RingBuffer) → r.size < capacity r → snapshot r ≡ take r.size r.buf
unfolding snapshot
snapshot_growing r h = elim (Bool-cases (r.size == 0)) [
  | inl e ↦ rw e (rw ((==_iff _ _).0 e) refl)
  | inr e ↦
      rw (e, lt→ltb _ _ h)
        (copy_over (replicate r.size 0) (take r.size r.buf)
          (omega (arith, length-replicate r.size (zero), length-take r.size r.buf)))
]

-- A full buffer holds them from the head on, and round.
pub snapshot_full :
    (r : RingBuffer) → IsValid r → capacity r ≤ r.size → snapshot r ≡ unrolled r.buf r.head
unfolding snapshot
snapshot_full r v h =
    let c = length r.buf in
    let out : List ℕ = replicate r.size 0 in
    let front = drop r.head r.buf in
    let nf : length front ≡ c - r.head = length-drop r.head r.buf in
    let no : length out ≡ r.size = length-replicate r.size zero in
    let nt : length (take r.head r.buf) ≡ r.head =
      omega (arith, length-take r.head r.buf, v.on_slot) in
    let put : copy out front ≡ front ++ drop (length front) out =
      copy_fit out front (omega (arith, nf, no)) in
    let whole : copy_at (copy out front) (c - r.head) (take r.head r.buf)
        ≡ front ++ take r.head r.buf =
      rw put (
        copy_at_fit (front ++ drop (length front) out) (c - r.head) (take r.head r.buf) (
          omega (
            arith,
            length-append front (drop (length front) out),
            length-drop (length front) out,
            nf,
            no,
            nt,
            v.on_slot,
          ))
        ∙ ap
            (λ t.
              t
              ++ (take r.head r.buf
                  ++ drop ((c - r.head) + length (take r.head r.buf))
                      (front ++ drop (length front) out)))
            (take-length_append (c - r.head) front (drop (length front) out) (sym nf))
        ∙ ap (λ t. front ++ (take r.head r.buf ++ t))
            (drop_all ((c - r.head) + length (take r.head r.buf)) (front ++ drop (length front) out)
              (omega (
                arith,
                length-append front (drop (length front) out),
                length-drop (length front) out,
                nf,
                no,
                nt,
                v.on_slot,
                v.bounded,
              )))
        ∙ ap (◌++◌ front) (append-nil (take r.head r.buf))) in
    elim (Bool-cases (r.size == 0)) [
      | inl e ↦ absurd (omega (arith, (==_iff r.size 0).0 e, v.positive))
      | inr e ↦ rw (e, le→ltb-false r.size c h) whole
    ]

pub length-snapshot : (r : RingBuffer) → IsValid r → length (snapshot r) ≡ r.size
length-snapshot r v = elim (Bool-cases (ltb r.size (capacity r))) [
  | inl g ↦
      ap length (snapshot_growing r (ltb→lt _ _ g))
      ∙ omega (arith, length-take r.size r.buf, ltb→lt _ _ g)
  | inr f ↦
      ap length (snapshot_full r v (ltb-false→le _ _ f))
      ∙ omega (
        arith,
        length-append (drop r.head r.buf) (take r.head r.buf),
        length-drop r.head r.buf,
        length-take r.head r.buf,
        v.on_slot,
        v.bounded,
        ltb-false→le r.size (capacity r) f,
      )
]
