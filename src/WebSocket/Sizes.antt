-- ===== src/WebSocket/Sizes.antt =====
-- relay/internal/server/websocket.go: the dimensions of a session under the frames of a connection.
use httpssh.Base.{
  ℕ, ◌≡◌, refl, ap, ◌∙◌, arith, inl, inr, Bool-cases, if_cases, false, none, List, [], ◌∷◌,
  if◌then◌else◌, Text, str_eq,
}
use httpssh.Protocol.{ClientFrame, frame_resize, frame_ping}
use httpssh.Session.{Session, Pty, bad_dimensions, resize, write_input}
use httpssh.WebSocket.{WsError, Handled, handle_frame, pump_read_ws}
use httpssh.WebSocket.Frames.{is_input, handle_frame_open}

abbrev pub size_of : Session → ℕ × ℕ
size_of s = (s.cols, s.rows)

-- The dimensions that are asked for, if they are in range.
abbrev pub fitted : ℕ × ℕ → ℕ → ℕ → ℕ × ℕ
fitted z c r = if bad_dimensions c r then z else (c, r)

abbrev pub size_by : ℕ × ℕ → ClientFrame → ℕ × ℕ
size_by z f = if is_input f then z else if str_eq f.t frame_resize then fitted z f.c f.r else z

abbrev pub size_after : ℕ × ℕ → List (ℕ × ClientFrame) → ℕ × ℕ
size_after z [] = z
size_after z ((now, f) ∷ fs) = size_after (size_by z f) fs

resize-size_of :
    (pty : Pty) (now : ℕ) (s : Session) (c r : ℕ)
    → s.closed ≡ false
    → pty.resize_answer c r ≡ none
    → size_of (resize pty now s c r).0 ≡ fitted (size_of s) c r
unfolding resize
resize-size_of pty now s c r running accepts = ground (arith, running, accepts)

write_input-size_of :
    (pty : Pty) (now : ℕ) (s : Session) (p : Text) → size_of (write_input pty now s p).0 ≡ size_of s
unfolding write_input
write_input-size_of pty now s p = ground arith

handle_frame-size_of :
    (pty : Pty) (now : ℕ) (s : Session) (f : ClientFrame)
    → s.closed ≡ false
    → pty.resize_answer f.c f.r ≡ none
    → size_of (handle_frame pty now s f).session ≡ size_by (size_of s) f
unfolding handle_frame
handle_frame-size_of pty now s f running accepts =
    let resized = resize-size_of pty now s f.c f.r running accepts in
    let written = write_input-size_of pty now s f.d in
    elim (Bool-cases (is_input f)) [
      | inl i ↦ rw (i, handle_frame) written
      | inr i ↦ elim (Bool-cases (str_eq f.t frame_resize)) [
        | inl j ↦ rw (i, handle_frame) (rw (j, handle_frame) resized)
        | inr j ↦
            rw (i, handle_frame)
              (rw (j, handle_frame)
                (if_cases (λ (h : Handled). size_of h.session ≡ size_of s) (str_eq f.t frame_ping) _
                  _ (λ _. refl) (λ _. refl)))
      ]
    ]

-- On an open session whose pseudo-console takes all that it is given, the dimensions at the end are the
-- last ones asked for that are in range.
pub pump_read_ws-size_of :
    (pty : Pty) (last : WsError) (s : Session) (fs : List (ℕ × ClientFrame))
    → s.closed ≡ false
    → ((p : Text) → pty.write_answer p ≡ none)
    → ((c r : ℕ) → pty.resize_answer c r ≡ none)
    → size_of (pump_read_ws pty last s fs).session ≡ size_after (size_of s) fs
unfolding pump_read_ws
pump_read_ws-size_of pty last s [] running w z = refl
pump_read_ws-size_of pty last s ((now, f) ∷ fs) running w z =
    let h : Handled = handle_frame pty now s f in
    let (passed, stays, call) = handle_frame_open pty now s f running (w f.d) in
    rw (passed, pump_read_ws)
      (pump_read_ws-size_of pty last h.session fs stays w z
        ∙ ap (λ (x : ℕ × ℕ). size_after x fs)
            (handle_frame-size_of pty now s f running (z f.c f.r)))
