-- ===== src/Ring/Holds.antt =====
-- relay/internal/session/ringbuffer.go: the branches of `Write`, one by one.
use httpssh.Base.{
  ℕ, ◌+◌, ◌-◌, ◌≤◌, ◌<◌, ◌≡◌, refl, sym, ap, ◌∙◌, subst, inl, inr, List, ◌++◌, arith, ltb, ltb→lt,
  ltb-false→le, Bool-cases, length, take, drop, length-append, length-take, length-drop,
  take-append-drop, drop-append_le, drop-append_ge, append-nil, append_assoc, take_all,
}
use httpssh.Ring.Slots.{copy_at_fit, length-copy_at, take-length_append}
use httpssh.Ring.Circle.{unrolled, Overwritten, write_at_head-Overwritten}
use httpssh.Ring.{RingBuffer, copy_at, capacity, write_at_head, overwrite, snapshot}
use httpssh.Ring.Contents.{IsValid, take_last, snapshot_growing, snapshot_full, length-snapshot}

-- A valid ring of `c` bytes whose contents are `xs`.
pub record Holds (c : ℕ) (xs : List ℕ) (r : RingBuffer) : Type 0 where
  pub valid : IsValid r
  pub same_capacity : capacity r ≡ c
  pub contents : snapshot r ≡ xs

pub Holds-filled :
    (c : ℕ) (xs buf : List ℕ)
    → 0 < c
    → length buf ≡ c
    → buf ≡ xs
    → Holds c xs (record { buf = buf; head = 0; size = c })
Holds-filled c xs buf h n e =
    let r : RingBuffer = record { buf = buf; head = 0; size = c } in
    let v : IsValid r = record {
      positive = omega arith;
      bounded = omega arith;
      on_slot = omega arith;
      growing = λ _. refl;
    } in
    record {
      valid = v;
      same_capacity = n;
      contents = snapshot_full r v (omega arith) ∙ append-nil buf ∙ e;
    }

pub take_last_all : (n : ℕ) (xs : List ℕ) → length xs ≤ n → take_last n xs ≡ xs
take_last_all n xs h = ap (λ k. drop k xs) {y = 0} (omega arith)

pub take_last-append :
    (n : ℕ) (xs ys : List ℕ) → n ≤ length ys → take_last n (xs ++ ys) ≡ take_last n ys
take_last-append n xs ys h =
    drop-append_ge (length (xs ++ ys) - n) xs ys (omega (arith, length-append xs ys))
    ∙ ap (λ k. drop k ys) (omega (arith, length-append xs ys))

-- A write into a full circle.
pub Holds-overwrite :
    (c : ℕ) (old p : List ℕ) (r : RingBuffer) (w : List ℕ × ℕ)
    → 0 < c
    → length r.buf ≡ c
    → length old ≡ c
    → length p < c
    → Overwritten old p c w
    → Holds c (take_last c (old ++ p)) (overwrite r w)
Holds-overwrite c old p r (buf, head) some_room nb old_full small (n, h, e) =
    let q : RingBuffer = overwrite r (buf, head) in
    let v : IsValid q = record {
      positive = omega arith;
      bounded = omega arith;
      on_slot = omega arith;
      growing = λ g. absurd (omega arith);
    } in
    record {
      valid = v;
      same_capacity = n;
      contents =
          snapshot_full q v (omega arith)
          ∙ e
          ∙ sym (drop-append_le (length p) old p (omega arith))
          ∙ ap (λ k. drop k (old ++ p)) (omega (arith, length-append old p));
    }

-- Free space at the tail for all of `p`.
pub Holds-append :
    (r : RingBuffer) (p : List ℕ)
    → IsValid r
    → r.size < capacity r
    → r.size + length p ≤ capacity r
    → Holds
        (capacity r)
        (snapshot r ++ p)
        (record r { buf = copy_at r.buf r.size p; size = r.size + length p })
Holds-append r p v g fits =
    let q : RingBuffer = record r { buf = copy_at r.buf r.size p; size = r.size + length p } in
    let n : length (copy_at r.buf r.size p) ≡ length r.buf = length-copy_at r.buf r.size p in
    let at : length (take r.size r.buf ++ p) ≡ r.size + length p =
      omega (arith, length-append (take r.size r.buf) p, length-take r.size r.buf) in
    let split : copy_at r.buf r.size p
        ≡ (take r.size r.buf ++ p) ++ drop (r.size + length p) r.buf =
      copy_at_fit r.buf r.size p fits ∙ sym (append_assoc (take r.size r.buf) p _) in
    let vq : IsValid q = record {
      positive = omega (arith, n);
      bounded = omega (arith, n);
      on_slot = omega (arith, n, v.on_slot);
      growing = λ _. v.growing g;
    } in
    let shown : take (r.size + length p) (copy_at r.buf r.size p) ≡ take r.size r.buf ++ p =
      ap (take (r.size + length p)) split
      ∙ take-length_append (r.size + length p) (take r.size r.buf ++ p) _ (sym at) in
    let now : snapshot q ≡ take r.size r.buf ++ p = elim (Bool-cases (ltb q.size (capacity q))) [
      | inl l ↦ snapshot_growing q (ltb→lt q.size (capacity q) l) ∙ shown
      | inr l ↦
          let full : capacity q ≤ q.size = ltb-false→le q.size (capacity q) l in
          snapshot_full q vq full
          ∙ ap (λ k. unrolled q.buf k) (v.growing g)
          ∙ append-nil q.buf
          ∙ sym (take_all (r.size + length p) q.buf full)
          ∙ shown
    ] in
    record {
      valid = vq;
      same_capacity = n;
      contents = now ∙ ap (λ t. t ++ p) (sym (snapshot_growing r g));
    }

-- Free space for a part of `p` only.
pub Holds-overflow :
    (r : RingBuffer) (p : List ℕ)
    → IsValid r
    → r.size < capacity r
    → capacity r < r.size + length p
    → length p < capacity r
    → Holds (capacity r) (take_last (capacity r) (snapshot r ++ p)) (
        overwrite r (
          write_at_head
            (copy_at r.buf r.size (take (capacity r - r.size) p))
            0
            (drop (capacity r - r.size) p)))
Holds-overflow r p v g over small =
    let free = capacity r - r.size in
    let fill : List ℕ = take free p in
    let rest : List ℕ = drop free p in
    let nf : length fill ≡ free = omega (arith, length-take free p) in
    let nr : length rest ≡ length p - free = length-drop free p in
    let filled = Holds-append r fill v g (omega (arith, nf)) in
    let buf : List ℕ = copy_at r.buf r.size fill in
    let n : length buf ≡ capacity r = length-copy_at r.buf r.size fill in
    let q : RingBuffer = record r { buf = buf; size = r.size + length fill } in
    let held : snapshot r ++ fill ≡ unrolled buf 0 =
      sym filled.contents
      ∙ snapshot_full q filled.valid (omega (arith, n, nf))
      ∙ ap (unrolled buf) (v.growing g) in
    let together : (snapshot r ++ fill) ++ rest ≡ snapshot r ++ p =
      append_assoc (snapshot r) fill rest ∙ ap (◌++◌ (snapshot r)) (take-append-drop free p) in
    let put : Overwritten (unrolled buf 0) rest (capacity r) (write_at_head buf 0 rest) =
      subst (λ c. Overwritten (unrolled buf 0) rest c (write_at_head buf 0 rest)) n
        (write_at_head-Overwritten buf 0 rest (omega (arith, n, v.positive))
          (omega (arith, n, nr, nf))) in
    subst
      (λ xs.
        Holds (capacity r) (take_last (capacity r) xs) (overwrite r (write_at_head buf 0 rest)))
      together
      (Holds-overwrite (capacity r) (snapshot r ++ fill) rest r (write_at_head buf 0 rest)
        v.positive refl (omega (arith, length-append (snapshot r) fill, length-snapshot r v, nf))
        (omega (arith, nr))
        (subst (λ old. Overwritten old rest (capacity r) (write_at_head buf 0 rest)) (sym held)
          put))
