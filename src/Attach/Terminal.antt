-- ===== src/Attach/Terminal.antt =====
-- relay/cmd/httpssh-relay/attach.go: the loops of `runAttachIO` between the terminal and the connection.
--
-- Each loop is a function of what it reads; they share the end of the context, which is where their lists
-- end. What a failed write or read does is that end.
use httpssh.Base.{
  ℕ, Bool, ◌&&◌, ◌||◌, Option, none, some, List, [], ◌∷◌, ◌++◌, ltb, if◌then◌else◌, ℤ, pos, negsuc,
  length, Text, str_eq,
}
use httpssh.Protocol.{
  ServerFrame, ClientFrame, frame_replay, frame_out, frame_exit, frame_error, frame_in,
  frame_resize, frame_ping,
}

abbrev pub input_frame : Text → ClientFrame
input_frame p = record { t = frame_in; d = p; c = 0; r = 0 }

abbrev pub resize_frame : ℕ → ℕ → ClientFrame
resize_frame cols rows = record { t = frame_resize; d = []; c = cols; r = rows }

abbrev pub ping_frame : ClientFrame
ping_frame = record { t = frame_ping; d = []; c = 0; r = 0 }

-- The first frame, where the size of the terminal can be told.
unfoldable pub first_frames : ℕ → ℕ → List ClientFrame
first_frames cols rows = if ltb 0 cols && ltb 0 rows then resize_frame cols rows ∷ [] else []

-- The standard input, by what each read gave.
unfoldable pub stdin_frames : List Text → List ClientFrame
stdin_frames [] = []
stdin_frames (p ∷ ps) =
    let rest = stdin_frames ps in if ltb 0 (length p) then input_frame p ∷ rest else rest

-- What the third loop waits for.
pub data Tick : Type 0 where
  ping_tick : Tick
  resized : ℕ → ℕ → Tick

unfoldable pub tick_frames : List Tick → List ClientFrame
tick_frames [] = []
tick_frames (ping_tick ∷ ts) = ping_frame ∷ tick_frames ts
tick_frames (resized cols rows ∷ ts) = resize_frame cols rows ∷ tick_frames ts

-- What the terminal has been given, the errors of the relay that were reported, and the exit code, -1 where
-- none is known.
pub record Screen : Type 0 where
  pub output : Text
  pub notices : List Text
  pub exit_code : ℤ

abbrev pub code_or : Option ℤ → ℤ → ℤ
code_or none d = d
code_or (some z) d = z

abbrev pub is_output : Text → Bool
is_output t = str_eq t frame_replay || str_eq t frame_out

unfoldable pub show_frames : ℤ → List ServerFrame → Screen
unfolding str_eq
show_frames code [] = record { output = []; notices = []; exit_code = code }
show_frames code (f ∷ fs) =
    let rest : Screen = show_frames code fs in
    if is_output f.t
    then record rest { output = f.d ++ rest.output }
    else if str_eq f.t frame_exit
    then record { output = []; notices = []; exit_code = code_or f.code code }
    else if str_eq f.t frame_error
    then record rest { notices = f.message ∷ rest.notices }
    else rest

-- The last lines that the client prints.
pub data LastLine : Type 0 where
  session_id_line : Text → LastLine
  exit_line : ℕ → LastLine

abbrev pub exit_lines : ℤ → List LastLine
exit_lines (pos n) = exit_line n ∷ []
exit_lines (negsuc n) = []

-- What `runAttachIO` shows once the context has ended.
unfoldable pub run_attach_io : Text → List ServerFrame → Screen × List LastLine
unfolding show_frames
run_attach_io session_id fs =
    let shown : Screen = show_frames (negsuc 0) fs in
    (shown, session_id_line session_id ∷ exit_lines shown.exit_code)
