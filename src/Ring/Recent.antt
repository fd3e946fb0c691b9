-- ===== src/Ring/Recent.antt =====
-- relay/internal/session/ringbuffer.go: `Snapshot` against the history of `Write`.
use httpssh.Base.{
  refl, ℕ, zero, ◌-◌, ◌≡◌, sym, ap, ◌∙◌, subst, inl, inr, ℤ, non_positive, to_nat, List, [], ◌∷◌,
  ◌++◌, arith, ltb, leb, ◌==◌, ltb→lt, ltb-false→le, leb→le, leb-false→lt, ==_iff, if◌then◌else◌,
  Bool-cases, length, drop, concat, length-append, length-drop, length-replicate, drop-append_le,
  append-nil, append_assoc, drop-drop,
}
use httpssh.Ring.{RingBuffer, capacity, new_ring_buffer, write, snapshot}
use httpssh.Ring.Contents.{IsValid, take_last, length-snapshot, new_ring_buffer-IsValid}
use httpssh.Ring.Holds.{Holds, take_last_all, Holds-overflow}
use httpssh.Ring.Branches.{Holds-empty, Holds-long, Holds-fits, Holds-full}

abbrev pub write_all : RingBuffer → List (List ℕ) → RingBuffer
write_all r [] = r
write_all r (p ∷ ps) = write_all (write r p) ps

-- `Write` on every branch: a valid ring stays valid at the same capacity, and then holds the newest
-- bytes, as many as fit, of what it held with `p` behind it.
pub write-Holds :
    (r : RingBuffer) (p : List ℕ)
    → IsValid r
    → Holds (capacity r) (take_last (capacity r) (snapshot r ++ p)) (write r p)
unfolding write
write-Holds r p v = elim (Bool-cases (length p == 0)) [
  | inl empty ↦ rw empty (Holds-empty r p v ((==_iff _ _).0 empty))
  | inr some_bytes ↦ elim (Bool-cases (leb (capacity r) (length p))) [
    | inl long ↦ rw (some_bytes, long) (Holds-long r p v (leb→le _ _ long))
    | inr short ↦ elim (Bool-cases (ltb r.size (capacity r))) [
      | inl growing ↦ elim (Bool-cases (leb (length p) (capacity r - r.size))) [
        | inl fits ↦
            rw (some_bytes, short, growing, fits)
              (Holds-fits r p v (ltb→lt _ _ growing) (leb→le _ _ fits))
        | inr over ↦
            rw (some_bytes, short, growing, over)
              (Holds-overflow r p v (ltb→lt _ _ growing)
                (omega (arith, leb-false→lt (length p) (capacity r - r.size) over))
                (leb-false→lt _ _ short))
      ]
      | inr full ↦
          rw (some_bytes, short, full)
            (Holds-full r p v (ltb-false→le _ _ full) (leb-false→lt _ _ short))
    ]
  ]
]

-- What comes before the newest `n` does not matter to the newest `n` of more.
take_last-take_last :
    (n : ℕ) (xs ys : List ℕ) → take_last n (take_last n xs ++ ys) ≡ take_last n (xs ++ ys)
take_last-take_last n xs ys =
    let cut = length xs - n in
    let old : List ℕ = drop cut xs in
    let no : length old ≡ length xs - cut = length-drop cut xs in
    ap (λ t. drop (length (old ++ ys) - n) t) (sym (drop-append_le cut xs ys (omega arith)))
    ∙ drop-drop (length (old ++ ys) - n) cut (xs ++ ys)
    ∙ ap (λ k. drop k (xs ++ ys)) (omega (arith, length-append old ys, length-append xs ys, no))

write_all-Holds :
    (c : ℕ) (xs : List ℕ) (r : RingBuffer) (ps : List (List ℕ))
    → Holds c (take_last c xs) r
    → Holds c (take_last c (xs ++ concat ps)) (write_all r ps)
write_all-Holds c xs r [] h = subst (λ t. Holds c (take_last c t) r) (sym (append-nil xs)) h
write_all-Holds c xs r (p ∷ ps) h =
    let after = write-Holds r p h.valid in
    let step : Holds c (take_last c (xs ++ p)) (write r p) =
      subst (λ t. Holds c t (write r p))
        (ap (λ t. take_last c (t ++ p)) h.contents ∙ take_last-take_last c xs p)
        (subst (λ k. Holds k (take_last k (snapshot r ++ p)) (write r p)) h.same_capacity after) in
    subst (λ t. Holds c (take_last c t) (write_all (write r p) ps)) (append_assoc xs p (concat ps))
      (write_all-Holds c (xs ++ p) (write r p) ps step)

-- The capacity that is asked for, or one byte if that is not positive.
abbrev pub granted : ℤ → ℕ
granted asked = if non_positive asked then 1 else to_nat asked

new_ring_buffer-Holds :
    (asked : ℤ) → Holds (granted asked) (take_last (granted asked) []) (new_ring_buffer asked)
unfolding new_ring_buffer snapshot
new_ring_buffer-Holds asked = record {
  valid = new_ring_buffer-IsValid asked;
  same_capacity = length-replicate (granted asked) zero;
  contents = sym (take_last_all (granted asked) [] (omega arith));
}

-- Whatever is written to a new buffer, and in whatever pieces, `Snapshot` is the newest bytes of all
-- that was written, as many as the granted capacity.
pub snapshot-write_all :
    (asked : ℤ) (ps : List (List ℕ))
    → snapshot (write_all (new_ring_buffer asked) ps) ≡ take_last (granted asked) (concat ps)
snapshot-write_all asked ps =
    (write_all-Holds (granted asked) [] (new_ring_buffer asked) ps
      (new_ring_buffer-Holds asked)).contents

pub write_all-IsValid :
    (r : RingBuffer) (ps : List (List ℕ))
    → IsValid r
    → Holds (capacity r) (take_last (capacity r) (snapshot r ++ concat ps)) (write_all r ps)
write_all-IsValid r ps v = write_all-Holds (capacity r) (snapshot r) r ps (record {
  valid = v;
  same_capacity = refl;
  contents =
      sym (take_last_all (capacity r) (snapshot r) (omega (arith, length-snapshot r v, v.bounded)));
})
