-- ===== src/Ring/Circle.antt =====
-- relay/internal/session/ringbuffer.go: `writeAtHead` on the circle of slots.
use native.Mathlib.Nat.{mod-lt, mod-eq_of_lt, mod-eq-sub-mod, mod_self, add-mod_right}
use httpssh.Base.{
  ℕ, ◌+◌, ◌-◌, ◌%◌, ◌≤◌, ◌<◌, ◌≡◌, refl, sym, ap, ◌∙◌, subst, inl, inr, List, [], ◌++◌, arith, leb,
  leb→le, leb-false→lt, if◌then◌else◌, Bool-cases, length, take, drop, length-append, length-take,
  length-drop, take-append-drop, drop-append_le, drop-append_ge, append-nil, append_assoc, drop_all,
}
use httpssh.Ring.{copy, copy_at, write_at_head}
use httpssh.Ring.Slots.{copy_fit, copy_at_fit, drop-length_append, take-length_append}

-- The bytes of a full circle, oldest first, where `head` is the index of the oldest.
abbrev pub unrolled : List ℕ → ℕ → List ℕ
unrolled buf head = drop head buf ++ take head buf

unrolled-append :
    (xs ys : List ℕ) (head : ℕ) → head ≡ length xs → unrolled (xs ++ ys) head ≡ ys ++ xs
unrolled-append xs ys head h =
    ap (λ t. t ++ take head (xs ++ ys)) (drop-length_append head xs ys h)
    ∙ ap (◌++◌ ys) (take-length_append head xs ys h)

-- At the end of the buffer the head comes back to the first slot.
unrolled_wrapped : (xs : List ℕ) → unrolled (xs ++ []) 0 ≡ [] ++ xs
unrolled_wrapped xs = append-nil (xs ++ []) ∙ append-nil xs

-- What a write leaves of the circle `old` of `c` slots: as many slots, `head` on one of them, and
-- the newest `c` bytes.
abbrev pub Overwritten : List ℕ → List ℕ → ℕ → List ℕ × ℕ → Type 0
Overwritten old p c (buf, head) =
    (length buf ≡ c) × (head < c) × (unrolled buf head ≡ drop (length p) old ++ p)

-- The circle is `tail` in front of the head and `front` from the head on.
module _ (tail front p : List ℕ) (small : length p < length tail + length front) where
  -- The head after a write that does not reach the end, and after one that just does.
  next_head : ℕ
  next_head = (length tail + length p) % (length tail + length front)

  placed : List ℕ
  placed = (tail ++ p) ++ drop (length p) front

  length-placed : length p ≤ length front → length placed ≡ length tail + length front
  unfolding placed
  length-placed fits = omega (
    arith,
    length-append (tail ++ p) (drop (length p) front),
    length-append tail p,
    length-drop (length p) front,
  )

  unrolled-placed :
      length p ≤ length front → unrolled placed next_head ≡ drop (length p) front ++ (tail ++ p)
  unfolding placed next_head
  unrolled-placed fits = elim (Bool-cases (leb (length front) (length p))) [
    | inl wraps ↦
        let e : length p ≡ length front = omega (arith, leb→le _ _ wraps) in
        let gone : drop (length p) front ≡ [] = drop_all (length p) front (omega arith) in
        rw (e, mod_self, ← e, gone) (unrolled_wrapped (tail ++ p))
    | inr inside ↦
        let below : length tail + length p < length tail + length front =
          omega (arith, leb-false→lt _ _ inside) in
        rw (mod-eq_of_lt below) (
          unrolled-append (tail ++ p) (drop (length p) front) (length tail + length p)
            (omega (arith, length-append tail p)))
  ]

  -- The part that fits behind the head.
  overwrite_fits :
      length p ≤ length front
      → Overwritten
          (front ++ tail)
          p
          (length tail + length front)
          (copy_at (tail ++ front) (length tail) p, next_head)
  unfolding next_head placed
  overwrite_fits fits =
      let put =
        copy_at_fit (tail ++ front) (length tail) p (omega (arith, length-append tail front)) in
      let e : copy_at (tail ++ front) (length tail) p ≡ placed =
        put
        ∙ ap (λ t. t ++ (p ++ drop (length tail + length p) (tail ++ front)))
            (take-length_append (length tail) tail front refl)
        ∙ ap (λ t. tail ++ (p ++ t))
            (drop-append_ge (length tail + length p) tail front (omega arith)
              ∙ ap (λ k. drop k front) (omega arith))
        ∙ sym (append_assoc tail p _) in
      rw e (
        length-placed fits,
        mod-lt _ (omega arith),
        unrolled-placed fits
            ∙ sym (append_assoc (drop (length p) front) tail p)
            ∙ ap (λ t. t ++ p) (sym (drop-append_le (length p) front tail fits)),
      )

  -- The rest goes to the first slots.
  overwrite_wraps :
      length front < length p
      → Overwritten (front ++ tail) p (length tail + length front) (
        copy
            (copy_at (tail ++ front) (length tail) (take (length front) p))
            (drop (length front) p),
        next_head,
      )
  unfolding next_head
  overwrite_wraps over =
      let first = take (length front) p in
      let rest = drop (length front) p in
      let nf : length first ≡ length front = omega (arith, length-take (length front) p) in
      let nr : length rest ≡ length p - length front = length-drop (length front) p in
      let e₁ : copy_at (tail ++ front) (length tail) first ≡ tail ++ first =
        copy_at_fit (tail ++ front) (length tail) first
          (omega (arith, length-append tail front, nf))
        ∙ ap (λ t. t ++ (first ++ drop (length tail + length first) (tail ++ front)))
            (take-length_append (length tail) tail front refl)
        ∙ ap (λ t. tail ++ (first ++ t))
            (drop_all (length tail + length first) (tail ++ front)
              (omega (arith, length-append tail front, nf)))
        ∙ ap (◌++◌ tail) (append-nil first) in
      let e₂ : copy (tail ++ first) rest ≡ rest ++ (drop (length rest) tail ++ first) =
        copy_fit (tail ++ first) rest (omega (arith, length-append tail first, nf, nr))
        ∙ ap (◌++◌ rest) (drop-append_le (length rest) tail first (omega (arith, nf, nr))) in
      let at : (length tail + length p) % (length tail + length front) ≡ length rest =
        mod-eq-sub-mod (omega arith) ∙ mod-eq_of_lt (omega arith) ∙ omega (arith, nr) in
      rw (e₁, e₂, at)
        (
          omega (
            arith,
            nf,
            nr,
            length-append rest (drop (length rest) tail ++ first),
            length-append (drop (length rest) tail) first,
            length-drop (length rest) tail,
          ),
          omega (arith, nr),
          unrolled-append rest (drop (length rest) tail ++ first) (length rest) refl
              ∙ append_assoc (drop (length rest) tail) first rest
              ∙ ap (λ t. drop (length rest) tail ++ t) (take-append-drop (length front) p)
              ∙ ap (λ k. drop k tail ++ p) nr
              ∙ ap (λ t. t ++ p) (sym (drop-append_ge (length p) front tail (omega arith))),
        )

  overwrite_either :
      (at first : ℕ)
      → at ≡ length tail
      → first ≡ length front
      → Overwritten (front ++ tail) p (length tail + length front) (
        (if leb (length p) first
            then copy_at (tail ++ front) at p
            else copy (copy_at (tail ++ front) at (take first p)) (drop first p)),
        next_head,
      )
  overwrite_either at first ea ef =
      rw (ea, ef)
        (elim (Bool-cases (leb (length p) (length front))) [
          | inl fits ↦ rw fits (overwrite_fits (leb→le _ _ fits))
          | inr over ↦ rw over (overwrite_wraps (leb-false→lt _ _ over))
        ])

write_at_head-append :
    (tail front p : List ℕ)
    → 0 < length front
    → length p < length tail + length front
    → Overwritten
        (front ++ tail)
        p
        (length tail + length front)
        (write_at_head (tail ++ front) (length tail) p)
unfolding write_at_head next_head
write_at_head-append tail front p pos small =
    let at : (length tail + (length tail + length front)) % (length tail + length front)
        ≡ length tail =
      add-mod_right (length tail) (length tail + length front) ∙ mod-eq_of_lt (omega arith) in
    rw (length-append tail front, at)
      (overwrite_either tail front p small (length tail) (length tail + length front - length tail)
        refl (omega arith))

-- `writeAtHead` keeps the number of slots, leaves `head` on a slot, and advances the circle by the
-- length of what it writes.
pub write_at_head-Overwritten :
    (buf : List ℕ) (head : ℕ) (p : List ℕ)
    → head < length buf
    → length p < length buf
    → Overwritten (unrolled buf head) p (length buf) (write_at_head buf head p)
write_at_head-Overwritten buf head p inside small =
    let lt : length (take head buf) ≡ head = omega (arith, length-take head buf) in
    let lf : length (drop head buf) ≡ length buf - head = length-drop head buf in
    subst (λ b. Overwritten (unrolled buf head) p (length buf) (write_at_head b head p))
      (take-append-drop head buf)
      (subst
        (λ k.
          Overwritten (unrolled buf head) p (length buf)
            (write_at_head (take head buf ++ drop head buf) k p))
        lt
        (subst
          (λ c.
            Overwritten (unrolled buf head) p c
              (write_at_head (take head buf ++ drop head buf) (length (take head buf)) p))
          (omega (arith, lt, lf))
          (write_at_head-append (take head buf) (drop head buf) p (omega (arith, lf))
            (omega (arith, lt, lf)))))
