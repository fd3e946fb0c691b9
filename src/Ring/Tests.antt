-- ===== src/Ring/Tests.antt =====
-- relay/internal/session/ringbuffer.go: runs on concrete rings.
use httpssh.Base.{ℕ, ◌≡◌, refl, pos, negsuc, List, [], ◌∷◌, concat}
use httpssh.Ring.{new_ring_buffer, write, snapshot}
use httpssh.Ring.Contents.{take_last}
use httpssh.Ring.Recent.{write_all, granted, snapshot-write_all}

abbrev pieces : List (List ℕ)
pieces = (1 ∷ 2 ∷ []) ∷ [] ∷ (3 ∷ 4 ∷ []) ∷ (5 ∷ []) ∷ []

snapshot-write_all_example :
    snapshot (write_all (new_ring_buffer (pos 3)) pieces)
    ≡ take_last (granted (pos 3)) (concat pieces)
snapshot-write_all_example = snapshot-write_all (pos 3) pieces

wraps_around : snapshot (write_all (new_ring_buffer (pos 3)) pieces) ≡ 3 ∷ 4 ∷ 5 ∷ []
unfolding new_ring_buffer write snapshot
wraps_around = refl

at_least_one_byte : snapshot (write (new_ring_buffer (negsuc 4)) (7 ∷ 8 ∷ [])) ≡ 8 ∷ []
unfolding new_ring_buffer write snapshot
at_least_one_byte = refl
