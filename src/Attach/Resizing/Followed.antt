-- ===== src/Attach/Resizing/Followed.antt =====
-- relay/cmd/httpssh-relay/attach_windows.go: the session takes the dimensions of the client's terminal.
use httpssh.Base.{
  zero, suc, replicate, ℕ, ◌%◌, ◌≡◌, refl, ap, ◌∙◌, arith, true, false, ◌&&◌, ◌||◌, Option, none,
  some, List, [], ◌∷◌, ◌++◌, ◌==◌, inl, inr, Bool-cases, if_cases, ltb, length, map, Text, str_eq,
}
use httpssh.Unicode.{decode_rune, runes_from, encode_rune, from_runes}
use httpssh.Protocol.{ClientFrame}
use httpssh.Protocol.Wire.{json_text, sent_input}
use httpssh.Session.{Session, Pty, bad_dimensions}
use httpssh.WebSocket.{WsError, pump_read_ws}
use httpssh.WebSocket.Frames.{is_input}
use httpssh.WebSocket.Sizes.{size_of, fitted, size_by, size_after, pump_read_ws-size_of}
use httpssh.Attach.Terminal.{Tick, ping_tick, resized, first_frames, stdin_frames, tick_frames}
use httpssh.Attach.Screen.{Weave, nothing_left, from_first, from_second}
use httpssh.Attach.Resizing.{get_stdout_size, size_or_zero, poll, poll_all, watch_resize}

-- The last dimensions of a list of answers that a session can take, `z` where there are none.
abbrev pub last_fitting : ℕ × ℕ → List (Option (ℕ × ℕ)) → ℕ × ℕ
last_fitting z [] = z
last_fitting z (none ∷ ps) = last_fitting z ps
last_fitting z (some (w, h) ∷ ps) = last_fitting (fitted z (w % 65_536) (h % 65_536)) ps

abbrev ticks_size : ℕ × ℕ → List Tick → ℕ × ℕ
ticks_size z [] = z
ticks_size z (ping_tick ∷ ts) = ticks_size z ts
ticks_size z (resized c r ∷ ts) = ticks_size (fitted z c r) ts

-- The session is where the watcher takes it to be.
abbrev Follows : ℕ × ℕ → ℕ × ℕ → Type 0
Follows last z = bad_dimensions last.0 last.1 ≡ false → z ≡ last

poll-Follows :
    (last z : ℕ × ℕ) (c r : ℕ) → Follows last z → Follows (poll last (some (c, r))).0 (fitted z c r)
unfolding poll
poll-Follows last z c r f = ground (arith, f)

poll_ticks :
    (last z : ℕ × ℕ) (c r : ℕ) (ts : List Tick)
    → Follows last z
    → ticks_size z ((poll last (some (c, r))).1 ++ ts) ≡ ticks_size (fitted z c r) ts
unfolding poll
poll_ticks last z c r ts f =
    let P : (ℕ × ℕ) × List Tick → Type 0 =
      λ o. ticks_size z (o.1 ++ ts) ≡ ticks_size (fitted z c r) ts in
    if_cases P (c == 0 || r == 0) _ _
      (λ none_. ap (λ (x : ℕ × ℕ). ticks_size x ts) (ground (arith, none_)))
      (λ _.
        if_cases P (c == last.0 && r == last.1) _ _
          (λ same. ap (λ (x : ℕ × ℕ). ticks_size x ts) (ground (arith, f, same))) (λ _. refl))

poll_all-size :
    (last z : ℕ × ℕ) (ps : List (Option (ℕ × ℕ)))
    → Follows last z
    → ticks_size z (poll_all last ps) ≡ last_fitting z ps
unfolding poll_all poll
poll_all-size last z [] f = refl
poll_all-size last z (none ∷ ps) f = poll_all-size last z ps f
poll_all-size last z (some (w, h) ∷ ps) f =
    let c : ℕ = w % 65_536 in
    let r : ℕ = h % 65_536 in
    let next : (ℕ × ℕ) × List Tick = poll last (some (c, r)) in
    poll_ticks last z c r (poll_all next.0 ps) f
    ∙ poll_all-size next.0 (fitted z c r) ps (poll-Follows last z c r f)

-- Frames of input do not matter to the dimensions.
AllInput : List ClientFrame → Type 0
AllInput [] = Unit {0}
AllInput (f ∷ fs) = (is_input f ≡ true) × AllInput fs

sizes_of : ℕ × ℕ → List ClientFrame → ℕ × ℕ
sizes_of z [] = z
sizes_of z (f ∷ fs) = sizes_of (size_by z f) fs

size_after-Weave :
    (z : ℕ × ℕ) {fs gs : List ClientFrame} {hs : List (ℕ × ClientFrame)}
    → Weave fs gs hs
    → AllInput fs
    → size_after z hs ≡ sizes_of z gs
unfolding sizes_of AllInput
size_after-Weave z nothing_left i = refl
size_after-Weave z (from_first now f w) (i, is) = rw i (size_after-Weave z w is)
size_after-Weave z (from_second now f w) i = size_after-Weave (size_by z f) w i

sizes_of-tick_frames :
    (z : ℕ × ℕ) (ts : List Tick) → sizes_of z (map sent_input (tick_frames ts)) ≡ ticks_size z ts
unfolding sizes_of tick_frames json_text runes_from from_runes decode_rune encode_rune str_eq
sizes_of-tick_frames z [] = refl
sizes_of-tick_frames z (ping_tick ∷ ts) = sizes_of-tick_frames z ts
sizes_of-tick_frames z (resized c r ∷ ts) = sizes_of-tick_frames (fitted z c r) ts

AllInput-stdin_frames : (ps : List Text) → AllInput (map sent_input (stdin_frames ps))
unfolding AllInput stdin_frames json_text runes_from from_runes decode_rune encode_rune str_eq
AllInput-stdin_frames [] = tt
AllInput-stdin_frames (p ∷ ps) = elim (Bool-cases (ltb 0 (length p))) [
  | inl e ↦ rw e (refl, AllInput-stdin_frames ps)
  | inr e ↦ rw e (AllInput-stdin_frames ps)
]

first-Follows :
    (z : ℕ × ℕ) (first : Option (ℕ × ℕ))
    → Follows (size_or_zero (get_stdout_size first)) (last_fitting z (first ∷ []))
first-Follows z none f = ground (arith, f)
first-Follows z (some (w, h)) f = rw f refl

first_size :
    (z : ℕ × ℕ) (now : ℕ) (first : Option (ℕ × ℕ)) (hs : List (ℕ × ClientFrame))
    → let seen : ℕ × ℕ = size_or_zero (get_stdout_size first) in
      size_after z (map (λ f. (now, sent_input f)) (first_frames seen.0 seen.1) ++ hs)
      ≡ size_after (last_fitting z (first ∷ [])) hs
unfolding first_frames json_text runes_from from_runes decode_rune encode_rune str_eq
first_size z now none hs = refl
first_size z now (some (w, h)) hs =
    let c : ℕ = w % 65_536 in
    let r : ℕ = h % 65_536 in
    if_cases
      (λ (fs : List ClientFrame).
        size_after z (map (λ f. (now, sent_input f)) fs ++ hs) ≡ size_after (fitted z c r) hs)
      (ltb 0 c && ltb 0 r) _ _ (λ _. refl)
      (λ zero_. ap (λ (x : ℕ × ℕ). size_after x hs) (ground (arith, zero_)))

-- An open session whose pseudo-console takes all that it is given has, once the relay has read what the
-- client sends, among it what is typed, the last dimensions of the terminal that are in range, as 16-bit
-- numbers: of those read at the start and at each tick of the watcher. (The watcher is taken to find at
-- its start what the client has found just before; what changes between these two is not noticed.)
pub watch_resize-last_fitting :
    (pty : Pty) (end_ : WsError) (s : Session) (now : ℕ) (first : Option (ℕ × ℕ))
    (polls : List (Option (ℕ × ℕ))) (reads : List Text) (hs : List (ℕ × ClientFrame))
    → s.closed ≡ false
    → ((p : Text) → pty.write_answer p ≡ none)
    → ((c r : ℕ) → pty.resize_answer c r ≡ none)
    → Weave
        (map sent_input (stdin_frames reads))
        (map sent_input (tick_frames (watch_resize first polls)))
        hs
    → let seen : ℕ × ℕ = size_or_zero (get_stdout_size first) in
      size_of
        (pump_read_ws pty end_ s
          (map (λ f. (now, sent_input f)) (first_frames seen.0 seen.1) ++ hs)).session
      ≡ last_fitting (size_of s) (first ∷ polls)
unfolding watch_resize
watch_resize-last_fitting pty end_ s now first polls reads hs running w z woven =
    let seen : ℕ × ℕ = size_or_zero (get_stdout_size first) in
    let z₁ : ℕ × ℕ = last_fitting (size_of s) (first ∷ []) in
    pump_read_ws-size_of pty end_ s _ running w z
    ∙ first_size (size_of s) now first hs
    ∙ size_after-Weave z₁ woven (AllInput-stdin_frames reads)
    ∙ sizes_of-tick_frames z₁ (poll_all seen polls)
    ∙ poll_all-size seen z₁ polls (first-Follows (size_of s) first)
    ∙ joined first
  where
    joined :
        (o : Option (ℕ × ℕ))
        → last_fitting (last_fitting (size_of s) (o ∷ [])) polls
          ≡ last_fitting (size_of s) (o ∷ polls)
    joined none = refl
    joined (some (c, r)) = refl

poll_all_still :
    (z : ℕ × ℕ) (first : Option (ℕ × ℕ)) (n : ℕ)
    → size_or_zero (get_stdout_size first) ≡ z
    → poll_all z (replicate n first) ≡ []
unfolding poll_all poll
poll_all_still z first zero e = refl
poll_all_still z none (suc n) e = poll_all_still z none n e
poll_all_still z (some (w, h)) (suc n) e =
    let c : ℕ = w % 65_536 in
    let r : ℕ = h % 65_536 in
    let known : (c == z.0 && r == z.1) ≡ true =
      ground (arith, ap (λ (x : ℕ × ℕ). x.0) e, ap (λ (x : ℕ × ℕ). x.1) e) in
    if_cases (λ (x : (ℕ × ℕ) × List Tick). x.1 ++ poll_all x.0 (replicate n (some (w, h))) ≡ [])
      (c == 0 || r == 0) _ _ (λ _. poll_all_still z (some (w, h)) n e)
      (λ _. rw known (poll_all_still z (some (w, h)) n e))

-- A watcher that finds the terminal always as at its start sends nothing, whatever the client has sent
-- before that.
pub watch_resize_still :
    (first : Option (ℕ × ℕ)) (n : ℕ) → watch_resize first (replicate n first) ≡ []
unfolding watch_resize
watch_resize_still first n = poll_all_still (size_or_zero (get_stdout_size first)) first n refl
