-- ===== src/Protocol/Wire.antt =====
-- relay/internal/session/protocol.go: what `encoding/json` makes of the text of a frame. The encoder writes
-- U+FFFD for every byte that begins no character, and the decoder of the other side reads that.
pub mod Exact
use httpssh.Base.{Text, codes}
use httpssh.Unicode.{runes_from, from_runes}
use httpssh.Protocol.{ServerFrame, ClientFrame}

unfoldable pub json_text : Text → Text
unfolding from_runes runes_from
json_text s = from_runes (runes_from 0 s)

-- A frame as the other side reads it.
abbrev pub sent_frame : ServerFrame → ServerFrame
sent_frame f = record f { t = json_text f.t; d = json_text f.d; message = json_text f.message }

abbrev pub sent_input : ClientFrame → ClientFrame
sent_input f = record f { t = json_text f.t; d = json_text f.d }
