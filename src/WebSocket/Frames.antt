-- ===== src/WebSocket/Frames.antt =====
-- relay/internal/server/websocket.go: what the reader makes of a client's frames.
use httpssh.Base.{
  ℕ, ◌≡◌, refl, sym, ap, ◌∙◌, inl, inr, Bool, true, false, ◌||◌, none, some, Option-cases, List, [],
  ◌∷◌, ◌++◌, append_assoc, append-nil, arith, if◌then◌else◌, Bool-cases, Text, str_eq,
}
use httpssh.Errors.{Error, session_closed}
use httpssh.Protocol.{ClientFrame, frame_in, frame_resize}
use httpssh.Session.{Session, Pty, PtyCall, pty_resize, pty_write, pty_close, resize, write_input}
use httpssh.Session.History.{Event, inputs, resizes, apply, run}
use httpssh.WebSocket.{Handled, WsError, session_error, handle_frame, pump_read_ws}

-- The event that a frame is, if any.
abbrev event_of : Pty → ℕ → ClientFrame → List Event
event_of pty now f =
    if str_eq f.t frame_in
    then inputs pty now f.d ∷ []
    else if str_eq f.t frame_resize
    then resizes pty now f.c f.r ∷ []
    else []

handle_frame-run :
    (pty : Pty) (now : ℕ) (s : Session) (f : ClientFrame)
    → (handle_frame pty now s f).session ≡ run s (event_of pty now f)
unfolding handle_frame run apply
handle_frame-run pty now s f = ground arith

abbrev pub events : Pty → List (ℕ × ClientFrame) → List Event
events pty [] = []
events pty ((now, f) ∷ fs) = event_of pty now f ++ events pty fs

run-append : (s : Session) (es rest : List Event) → run s (es ++ rest) ≡ run (run s es) rest
unfolding run
run-append s [] rest = refl
run-append s (e ∷ es) rest = run-append (apply s e) es rest

-- The part of the frames that was handled, as events.
abbrev IsPrefixRun : Pty → Session → List (ℕ × ClientFrame) → Session → Type 0
IsPrefixRun pty s fs s' =
    (es : List Event) × (rest : List Event) × (es ++ rest ≡ events pty fs) × (s' ≡ run s es)

-- The reader drives the session by the events of the frames, in their order, up to the frame that ends
-- the connection.
pub pump_read_ws-run :
    (pty : Pty) (last : WsError) (s : Session) (fs : List (ℕ × ClientFrame))
    → IsPrefixRun pty s fs (pump_read_ws pty last s fs).session
unfolding pump_read_ws
pump_read_ws-run pty last s [] = ([], [], refl, unfold run in refl)
pump_read_ws-run pty last s ((now, f) ∷ fs) =
    let h : Handled = handle_frame pty now s f in
    elim (Option-cases h.failure) [
      | inl e ↦
          rw (e, pump_read_ws)
            (let (es, rest, joined, ran) = pump_read_ws-run pty last h.session fs in
              (
                event_of pty now f ++ es,
                rest,
                append_assoc (event_of pty now f) es rest
                    ∙ ap (λ xs. event_of pty now f ++ xs) joined,
                ran
                    ∙ ap (λ t. run t es) (handle_frame-run pty now s f)
                    ∙ sym (run-append s (event_of pty now f) es),
              ))
      | inr (x, e) ↦
          rw (e, pump_read_ws)
            (event_of pty now f, events pty fs, refl, handle_frame-run pty now s f)
    ]

-- What was typed: the texts that reached the pseudo-console.
abbrev pub typed : List PtyCall → List Text
typed [] = []
typed (pty_write p ∷ cs) = p ∷ typed cs
typed (pty_resize cols rows ∷ cs) = typed cs
typed (pty_close ∷ cs) = typed cs

typed-append : (cs ds : List PtyCall) → typed (cs ++ ds) ≡ typed cs ++ typed ds
typed-append [] ds = refl
typed-append (pty_write p ∷ cs) ds = ap (λ ts. p ∷ ts) (typed-append cs ds)
typed-append (pty_resize cols rows ∷ cs) ds = typed-append cs ds
typed-append (pty_close ∷ cs) ds = typed-append cs ds

abbrev pub is_input : ClientFrame → Bool
is_input f = str_eq f.t frame_in

-- The texts of the input frames.
abbrev pub input_of : ClientFrame → List Text
input_of f = if is_input f then f.d ∷ [] else []

abbrev pub input_texts : List (ℕ × ClientFrame) → List Text
input_texts [] = []
input_texts ((now, f) ∷ fs) = input_of f ++ input_texts fs

abbrev pub has_input : List (ℕ × ClientFrame) → Bool
has_input [] = false
has_input ((now, f) ∷ fs) = is_input f || has_input fs

pub write_input_open :
    (pty : Pty) (now : ℕ) (s : Session) (p : Text)
    → s.closed ≡ false
    → pty.write_answer p ≡ none
    → ((write_input pty now s p).1 ≡ none)
      × ((write_input pty now s p).0.closed ≡ false)
      × ((write_input pty now s p).0.pty_calls ≡ s.pty_calls ++ (pty_write p ∷ []))
unfolding write_input
write_input_open pty now s p running accepts = (
  ground (arith, running, accepts),
  ground (arith, running, accepts),
  ground (arith, running, accepts),
)

resize_calls :
    (pty : Pty) (now : ℕ) (s : Session) (cols rows : ℕ)
    → let t = (resize pty now s cols rows).0 in
      (t.closed ≡ s.closed) × (typed t.pty_calls ≡ typed s.pty_calls)
unfolding resize
resize_calls pty now s cols rows =
    let more = typed-append s.pty_calls (pty_resize cols rows ∷ []) ∙ append-nil _ in
    (ground arith, ground (arith, more))

pub handle_frame_open :
    (pty : Pty) (now : ℕ) (s : Session) (f : ClientFrame)
    → s.closed ≡ false
    → pty.write_answer f.d ≡ none
    → let h = handle_frame pty now s f in
      (h.failure ≡ none)
      × (h.session.closed ≡ false)
      × (typed h.session.pty_calls ≡ typed s.pty_calls ++ input_of f)
unfolding handle_frame
handle_frame_open pty now s f running accepts =
    let (passed, stays, call) = write_input_open pty now s f.d running accepts in
    let (same, quiet) = resize_calls pty now s f.c f.r in
    let more = ap typed call ∙ typed-append s.pty_calls (pty_write f.d ∷ []) in
    let nil = append-nil (typed s.pty_calls) in
    (ground (arith, passed), ground (arith, stays, same, running), ground (arith, more, quiet, nil))

-- On an open session whose pseudo-console takes what is written, no frame ends the connection, not even
-- one with dimensions out of range, and everything that is typed reaches the shell, in the order of the
-- frames.
pub pump_read_ws_inputs :
    (pty : Pty) (last : WsError) (s : Session) (fs : List (ℕ × ClientFrame))
    → s.closed ≡ false
    → ((p : Text) → pty.write_answer p ≡ none)
    → let o = pump_read_ws pty last s fs in
      (o.error ≡ last) × (typed o.session.pty_calls ≡ typed s.pty_calls ++ input_texts fs)
unfolding pump_read_ws
pump_read_ws_inputs pty last s [] running accepts = (refl, sym (append-nil (typed s.pty_calls)))
pump_read_ws_inputs pty last s ((now, f) ∷ fs) running accepts =
    let h : Handled = handle_frame pty now s f in
    let (passed, stays, calls) = handle_frame_open pty now s f running (accepts f.d) in
    let (ended, rest) = pump_read_ws_inputs pty last h.session fs stays accepts in
    rw (passed, pump_read_ws)
      (
        ended,
        rest
            ∙ ap (λ ts. ts ++ input_texts fs) calls
            ∙ append_assoc (typed s.pty_calls) (input_of f) (input_texts fs),
      )

handle_frame_closed :
    (pty : Pty) (now : ℕ) (s : Session) (f : ClientFrame)
    → s.closed ≡ true
    → let h = handle_frame pty now s f in
      (h.session ≡ s) × (h.failure ≡ (if is_input f then some session_closed else none))
unfolding handle_frame write_input resize
handle_frame_closed pty now s f gone = (ground (arith, gone), ground (arith, gone))

-- The reader ends at a frame that fails, and otherwise goes on with the session that the frame left.
pump_read_ws_stop :
    (pty : Pty) (last : WsError) (now : ℕ) (s : Session) (f : ClientFrame)
    (fs : List (ℕ × ClientFrame)) (e : Error)
    → (handle_frame pty now s f).failure ≡ some e
    → let o = pump_read_ws pty last s ((now, f) ∷ fs) in
      (o.session ≡ (handle_frame pty now s f).session) × (o.error ≡ session_error e)
unfolding pump_read_ws
pump_read_ws_stop pty last now s f fs e h = rw (h, pump_read_ws) (refl, refl)

pump_read_ws_next :
    (pty : Pty) (last : WsError) (now : ℕ) (s : Session) (f : ClientFrame)
    (fs : List (ℕ × ClientFrame))
    → (handle_frame pty now s f).failure ≡ none
    → let o = pump_read_ws pty last s ((now, f) ∷ fs) in
      let rest = pump_read_ws pty last (handle_frame pty now s f).session fs in
      (o.session ≡ rest.session) × (o.error ≡ rest.error)
unfolding pump_read_ws
pump_read_ws_next pty last now s f fs h = rw (h, pump_read_ws) (refl, refl)

-- On a closed session nothing of the session changes, and the first frame that types anything ends the
-- connection.
pub pump_read_ws_closed :
    (pty : Pty) (last : WsError) (s : Session) (fs : List (ℕ × ClientFrame))
    → s.closed ≡ true
    → let o = pump_read_ws pty last s fs in
      (o.session ≡ s) × (o.error ≡ (if has_input fs then session_error session_closed else last))
unfolding pump_read_ws
pump_read_ws_closed pty last s [] gone = (refl, refl)
pump_read_ws_closed pty last s ((now, f) ∷ fs) gone =
    let (same, failed_so) = handle_frame_closed pty now s f gone in
    let h : Handled = handle_frame pty now s f in
    elim (Bool-cases (is_input f)) [
      | inl e ↦
          let (kept, ended) =
            pump_read_ws_stop pty last now s f fs session_closed
              (failed_so ∙ ap (λ b. if b then some session_closed else none) e) in
          (
            kept ∙ same,
            ended
                ∙ sym
                    (ap (λ b. if b || has_input fs then session_error session_closed else last) e),
          )
      | inr e ↦
          let (kept, ended) =
            pump_read_ws_next pty last now s f fs
              (failed_so ∙ ap (λ b. if b then some session_closed else none) e) in
          let (rest, error) =
            pump_read_ws_closed pty last h.session fs (ap (λ t. t.closed) same ∙ gone) in
          (
            kept ∙ rest ∙ same,
            ended
                ∙ error
                ∙ sym
                    (ap (λ b. if b || has_input fs then session_error session_closed else last) e),
          )
    ]
