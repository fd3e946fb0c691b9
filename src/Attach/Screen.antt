-- ===== src/Attach/Screen.antt =====
-- relay/cmd/httpssh-relay/attach.go: what the terminal shows of a session, and what the session gets of
-- what is typed.
use httpssh.Base.{
  ℕ, suc, inl, inr, Bool-cases, ltb-false→le, ◌≡◌, ◌↔◌, refl, sym, ap, ◌∙◌, subst, arith, Bool,
  true, false, none, some, List, [], ◌∷◌, ◌++◌, ltb, if◌then◌else◌, negsuc, map, concat, get_elem?,
  length, Text, str_eq,
}
use httpssh.Unicode.{decode_rune, runes_from, encode_rune, from_runes}
use httpssh.Protocol.{ClientFrame, out, replay}
use httpssh.Protocol.Wire.{json_text, sent_frame, sent_input}
use httpssh.Protocol.Wire.Exact.{AllValid, concat-json_text_iff}
use httpssh.Ring.{snapshot}
use httpssh.Session.{Session, Subscriber, Pty, subscribe}
use httpssh.Session.History.{Event, run, chunks, NoResize, stream}
use httpssh.Session.Delivery.{run-subscribe}
use httpssh.WebSocket.{WsError, pump_read_ws}
use httpssh.WebSocket.Frames.{typed, is_input, input_of, input_texts, pump_read_ws_inputs}
use httpssh.Attach.Terminal.{
  Screen, show_frames, stdin_frames, tick_frames, Tick, ping_tick, resized,
}

-- Frames of output, as they arrive, are shown one behind the other.
show_frames-outs :
    (ps : List Text)
    → show_frames (negsuc 0) (map sent_frame (map out ps))
      ≡ record { output = concat (map json_text ps); notices = []; exit_code = negsuc 0 }
unfolding show_frames json_text runes_from from_runes decode_rune encode_rune str_eq
show_frames-outs [] = refl
show_frames-outs (p ∷ ps) =
    ap (λ (s : Screen). record s { output = json_text p ++ s.output }) (show_frames-outs ps)

show_frames_joined :
    (p : Text) (ps : List Text)
    → show_frames (negsuc 0) (map sent_frame (replay p ∷ map out ps))
      ≡ record { output = concat (map json_text (p ∷ ps)); notices = []; exit_code = negsuc 0 }
unfolding show_frames json_text runes_from from_runes decode_rune encode_rune str_eq
show_frames_joined p ps =
    ap (λ (s : Screen). record s { output = json_text p ++ s.output }) (show_frames-outs ps)

-- The terminal of a client that joined an open session, and is still on the list when the events `es`
-- are over, shows (once it has been sent all its frames) the scrollback of the moment at which it joined
-- and then all output since, exactly if the scrollback and each chunk are valid UTF-8 by themselves; a
-- character cut between two chunks is not shown. The client ends with no exit code. (No resize window is
-- open, and none opens.)
pub show_frames-subscribe :
    (s : Session) (ended : Bool) (role : Text) (now : ℕ) (es : List Event)
    → s.closed ≡ false
    → s.resize_repaint_until ≡ none
    → NoResize es
    → (c : Subscriber) × (get_elem? (run (subscribe s ended role now) es).clients (length s.clients)
        ≡ some c)
      × (c.listed ≡ true
          → let screen = show_frames (negsuc 0) (map sent_frame (stream c)) in
            ((screen.output ≡ snapshot s.scrollback ++ concat (chunks es))
              ↔ AllValid (snapshot s.scrollback ∷ chunks es))
            × (screen.exit_code ≡ negsuc 0))
show_frames-subscribe s ended role now es open_ calm nr =
    let (c, at, got) = run-subscribe s ended role now es open_ calm nr in
    (
      c,
      at,
      λ h.
          subst
            (λ (z : Screen).
              ((z.output ≡ snapshot s.scrollback ++ concat (chunks es))
                ↔ AllValid (snapshot s.scrollback ∷ chunks es))
              × (z.exit_code ≡ negsuc 0))
            (sym (
              ap (λ fs. show_frames (negsuc 0) (map sent_frame fs)) (got h)
              ∙ show_frames_joined (snapshot s.scrollback) (chunks es)))
            (concat-json_text_iff (snapshot s.scrollback ∷ chunks es), refl),
    )

-- Frames of two loops as the relay reads them, each loop's in its order.
pub data Weave : List ClientFrame → List ClientFrame → List (ℕ × ClientFrame) → Type 0 where
  nothing_left : Weave [] [] []
  from_first :
      (now : ℕ) (f : ClientFrame) {fs gs : List ClientFrame} {hs : List (ℕ × ClientFrame)}
      → Weave fs gs hs
      → Weave (f ∷ fs) gs ((now, f) ∷ hs)
  from_second :
      (now : ℕ) (f : ClientFrame) {fs gs : List ClientFrame} {hs : List (ℕ × ClientFrame)}
      → Weave fs gs hs
      → Weave fs (f ∷ gs) ((now, f) ∷ hs)

abbrev texts_of : List ClientFrame → List Text
texts_of [] = []
texts_of (f ∷ fs) = input_of f ++ texts_of fs

abbrev NoInput : List ClientFrame → Type 0
NoInput [] = Unit {0}
NoInput (f ∷ fs) = (is_input f ≡ false) × NoInput fs

input_texts-Weave :
    {fs gs : List ClientFrame} {hs : List (ℕ × ClientFrame)}
    → Weave fs gs hs
    → NoInput gs
    → input_texts hs ≡ texts_of fs
input_texts-Weave nothing_left n = refl
input_texts-Weave (from_first now f w) n = ap (λ t. input_of f ++ t) (input_texts-Weave w n)
input_texts-Weave (from_second now f w) (i, n) = rw i (input_texts-Weave w n)

NoInput-tick_frames : (ts : List Tick) → NoInput (map sent_input (tick_frames ts))
unfolding tick_frames json_text runes_from from_runes decode_rune encode_rune str_eq
NoInput-tick_frames [] = tt
NoInput-tick_frames (ping_tick ∷ ts) = (refl, NoInput-tick_frames ts)
NoInput-tick_frames (resized cols rows ∷ ts) = (refl, NoInput-tick_frames ts)

-- The reads of the standard input that gave something.
unfoldable pub non_empty : List Text → List Text
non_empty [] = []
non_empty (p ∷ ps) = let rest = non_empty ps in if ltb 0 (length p) then p ∷ rest else rest

texts_of-stdin_frames :
    (ps : List Text) → texts_of (map sent_input (stdin_frames ps)) ≡ map json_text (non_empty ps)
unfolding stdin_frames non_empty json_text runes_from from_runes decode_rune encode_rune str_eq
texts_of-stdin_frames [] = refl
texts_of-stdin_frames (p ∷ ps) = elim (Bool-cases (ltb 0 (length p))) [
  | inl e ↦ rw e (ap (◌∷◌ (json_text p)) (texts_of-stdin_frames ps))
  | inr e ↦ rw e (texts_of-stdin_frames ps)
]

concat-non_empty :
    (ps : List Text) → concat (map json_text (non_empty ps)) ≡ concat (map json_text ps)
unfolding non_empty json_text runes_from from_runes
concat-non_empty [] = refl
concat-non_empty ([] ∷ ps) = concat-non_empty ps
concat-non_empty ((x ∷ p) ∷ ps) = elim (Bool-cases (ltb 0 (length (x ∷ p)))) [
  | inl e ↦ rw e (ap (◌++◌ (json_text (x ∷ p))) (concat-non_empty ps))
  | inr e ↦ absurd (no_more (length p) e)
]
  where
    no_more : (n : ℕ) → ltb 0 (suc n) ≡ false → ⊥
    no_more n h = omega (arith, ltb-false→le 0 (suc n) h)

-- What is typed at the terminal of an open session whose pseudo-console takes what is written, however the
-- relay reads it among the pings and the changes of size: no frame ends the connection, and what reaches
-- the shell is what was typed, in order, exactly if each read of the standard input is valid UTF-8 by
-- itself.
pub pump_read_ws-stdin_frames :
    (pty : Pty) (last : WsError) (s : Session) (reads : List Text) (ticks : List Tick)
    (hs : List (ℕ × ClientFrame))
    → s.closed ≡ false
    → ((p : Text) → pty.write_answer p ≡ none)
    → Weave (map sent_input (stdin_frames reads)) (map sent_input (tick_frames ticks)) hs
    → let o = pump_read_ws pty last s hs in
      (o.error ≡ last)
      × ((texts : List Text) × (typed o.session.pty_calls ≡ typed s.pty_calls ++ texts)
          × ((concat texts ≡ concat reads) ↔ AllValid reads))
pump_read_ws-stdin_frames pty last s reads ticks hs running accepts w =
    let (ended, all) = pump_read_ws_inputs pty last s hs running accepts in
    (
      ended,
      (
        map json_text (non_empty reads),
        all
            ∙ ap (λ t. typed s.pty_calls ++ t)
                (input_texts-Weave w (NoInput-tick_frames ticks) ∙ texts_of-stdin_frames reads),
        subst (λ (t : Text). (t ≡ concat reads) ↔ AllValid reads) (sym (concat-non_empty reads))
            (concat-json_text_iff reads),
      ),
    )
