-- ===== src/Session/Subscribers.antt =====
-- relay/internal/session/session.go: what the loops over the subscribers do to each of them.
use httpssh.Base.{
  ℕ, zero, suc, ◌+◌, ◌≡◌, refl, ap, ◌∙◌, Bool, some, List, [], ◌∷◌, ◌++◌, arith, ◌==◌,
  if◌then◌else◌, length, get_elem?,
}
use httpssh.Protocol.{ServerFrame}
use httpssh.Session.{Subscriber, publish_to, publish_each, modify, fanout_to, fanout_each}

pub get_elem?-publish_each :
    (pick : ℕ → Bool) (during : Bool) (f : ServerFrame) (now i j : ℕ) (cs : List Subscriber)
    {c : Subscriber}
    → get_elem? cs j ≡ some c
    → get_elem? (publish_each pick during f now i cs) j
      ≡ some (publish_to during f now (pick (i + j)) c)
unfolding publish_each
get_elem?-publish_each pick during f now i j [] e = cc
get_elem?-publish_each pick during f now i zero (x ∷ cs) e = ground (arith)
get_elem?-publish_each pick during f now i (suc j) (x ∷ cs) {c} e =
    get_elem?-publish_each pick during f now (i + 1) j cs e
    ∙ ap (λ k. some (publish_to during f now (pick k) c)) (omega arith)

pub get_elem?-fanout_each :
    (pick : ℕ → Bool) (f : ServerFrame) (i j : ℕ) (cs : List Subscriber) {c : Subscriber}
    → get_elem? cs j ≡ some c
    → get_elem? (fanout_each pick f i cs) j ≡ some (fanout_to (pick (i + j)) f c)
unfolding fanout_each
get_elem?-fanout_each pick f i j [] e = cc
get_elem?-fanout_each pick f i zero (x ∷ cs) e = ground (arith)
get_elem?-fanout_each pick f i (suc j) (x ∷ cs) {c} e =
    get_elem?-fanout_each pick f (i + 1) j cs e
    ∙ ap (λ k. some (fanout_to (pick k) f c)) (omega arith)

pub get_elem?-modify :
    (i j : ℕ) (g : Subscriber → Subscriber) (cs : List Subscriber) {c : Subscriber}
    → get_elem? cs j ≡ some c
    → get_elem? (modify i g cs) j ≡ some (if i == j then g c else c)
unfolding modify
get_elem?-modify i j g [] e = cc
get_elem?-modify zero zero g (x ∷ cs) e = ground arith
get_elem?-modify zero (suc j) g (x ∷ cs) e = ground arith
get_elem?-modify (suc i) zero g (x ∷ cs) e = ground arith
get_elem?-modify (suc i) (suc j) g (x ∷ cs) {c} e = get_elem?-modify i j g cs e ∙ ground arith

pub get_elem?-append_left :
    (cs ds : List Subscriber) (j : ℕ) {c : Subscriber}
    → get_elem? cs j ≡ some c
    → get_elem? (cs ++ ds) j ≡ some c
get_elem?-append_left [] ds j e = cc
get_elem?-append_left (x ∷ cs) ds zero e = e
get_elem?-append_left (x ∷ cs) ds (suc j) e = get_elem?-append_left cs ds j e

pub get_elem?-length :
    (cs : List Subscriber) (c : Subscriber) → get_elem? (cs ++ (c ∷ [])) (length cs) ≡ some c
get_elem?-length [] c = refl
get_elem?-length (x ∷ cs) c = get_elem?-length cs c
