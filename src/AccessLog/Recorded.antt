-- ===== src/AccessLog/Recorded.antt =====
-- relay/internal/server/access_log.go and relay/internal/server/recovery.go: what the lines say.
use httpssh.Base.{
  ℕ, ◌+◌, ◌≡◌, refl, ap, ◌∙◌, arith, true, false, Option, none, some, List, [], ◌∷◌, Text,
}
use httpssh.AccessLog.{
  WriterCall, write_header, write_body, Ending, returns, panics, ResponseWriter, is_interim,
  or_sent, send_header, send_body, StatusRecorder, record_header, record_body, record_all, LogLine,
  http_request, handler_panic, Served, new_recorder, access_log, completed, fresh, serve_logged,
}

abbrev pub AllFinal : List WriterCall → Type 0
AllFinal [] = Unit {0}
AllFinal (write_header code ∷ cs) = (is_interim code ≡ false) × AllFinal cs
AllFinal (write_body n ∷ cs) = AllFinal cs

-- The recorder has what went out: nothing yet, or the status that was sent.
record Agrees (r : StatusRecorder) : Type 0 where
  bytes : r.bytes ≡ r.response_writer.sent_bytes
  sent : r.wrote_header ≡ true → r.response_writer.sent_status ≡ some r.status
  unsent : r.wrote_header ≡ false → (r.response_writer.sent_status ≡ none) × (r.status ≡ 200)

Agrees-record_header :
    (r : StatusRecorder) (code : ℕ)
    → is_interim code ≡ false
    → Agrees r
    → Agrees (record_header r code)
unfolding record_header send_header
Agrees-record_header r code final a = ground (arith, a.bytes, a.sent, a.unsent)

Agrees-record_body : (r : StatusRecorder) (n : ℕ) → Agrees r → Agrees (record_body r n)
unfolding record_body send_body
Agrees-record_body r n a = ground (arith, a.bytes, a.sent, a.unsent)

Agrees-record_all :
    (cs : List WriterCall) (r : StatusRecorder) → AllFinal cs → Agrees r → Agrees (record_all r cs)
unfolding record_all
Agrees-record_all [] r f a = a
Agrees-record_all (write_header code ∷ cs) r (final, f) a =
    Agrees-record_all cs (record_header r code) f (Agrees-record_header r code final a)
Agrees-record_all (write_body n ∷ cs) r f a =
    Agrees-record_all cs (record_body r n) f (Agrees-record_body r n a)

-- The status that a handler gives first, if it gives one, and the bytes of its body.
abbrev pub first_status : List WriterCall → Option ℕ
first_status [] = none
first_status (write_header code ∷ cs) = some code
first_status (write_body n ∷ cs) = some 200

abbrev pub body_bytes : List WriterCall → ℕ
body_bytes [] = 0
body_bytes (write_header code ∷ cs) = body_bytes cs
body_bytes (write_body n ∷ cs) = n + body_bytes cs

abbrev pub status_or : Option ℕ → ℕ → ℕ
status_or none d = d
status_or (some code) d = code

abbrev first_of : Option ℕ → Option ℕ → Option ℕ
first_of none o = o
first_of (some code) o = some code

sent_header :
    (r : StatusRecorder) (code : ℕ) (cs : List WriterCall)
    → is_interim code ≡ false
    → Agrees r
    → (first_of (record_header r code).response_writer.sent_status (first_status cs)
        ≡ first_of r.response_writer.sent_status (some code))
      × ((record_header r code).response_writer.sent_bytes ≡ r.response_writer.sent_bytes)
unfolding record_header send_header
sent_header r code cs final a = ground (arith, a.sent, a.unsent, final)

sent_body :
    (r : StatusRecorder) (n : ℕ) (cs : List WriterCall)
    → (first_of (record_body r n).response_writer.sent_status (first_status cs)
        ≡ first_of r.response_writer.sent_status (some 200))
      × ((record_body r n).response_writer.sent_bytes ≡ r.response_writer.sent_bytes + n)
unfolding record_body send_body
sent_body r n cs = ground arith

record_all_sent :
    (cs : List WriterCall) (r : StatusRecorder)
    → AllFinal cs
    → Agrees r
    → ((record_all r cs).response_writer.sent_status
        ≡ first_of r.response_writer.sent_status (first_status cs))
      × ((record_all r cs).response_writer.sent_bytes
          ≡ r.response_writer.sent_bytes + body_bytes cs)
unfolding record_all
record_all_sent [] r f a = ground arith
record_all_sent (write_header code ∷ cs) r (final, f) a =
    let r' : StatusRecorder = record_header r code in
    let (status, bytes) = record_all_sent cs r' f (Agrees-record_header r code final a) in
    let (now, same) = sent_header r code cs final a in (status ∙ now, omega (arith, bytes, same))
record_all_sent (write_body n ∷ cs) r f a =
    let r' : StatusRecorder = record_body r n in
    let (status, bytes) = record_all_sent cs r' f (Agrees-record_body r n a) in
    let (now, more) = sent_body r n cs in (status ∙ now, omega (arith, bytes, more))

recorded_status :
    (r : StatusRecorder) → Agrees r → r.status ≡ status_or r.response_writer.sent_status 200
recorded_status r a = ground (arith, a.sent, a.unsent)

or_sent_500 : (o : Option ℕ) → or_sent (or_sent o 500) 200 ≡ some (status_or o 500)
or_sent_500 none = refl
or_sent_500 (some code) = refl

or_sent_200 : (o : Option ℕ) → or_sent o 200 ≡ some (status_or o 200)
or_sent_200 none = refl
or_sent_200 (some code) = refl

writer_of :
    (w : ResponseWriter) (o : Option ℕ) (n : ℕ)
    → w.sent_status ≡ o
    → w.sent_bytes ≡ n
    → w ≡ record { sent_status = o; sent_bytes = n }
writer_of w o n a b = cc

-- What is sent and logged, by how the handler ended.
abbrev pub IsLogged : Text → Text → List WriterCall → Ending → Served → Type 0
IsLogged method path cs returns s =
    let code = status_or (first_status cs) 200 in
    (completed s ≡ record { sent_status = some code; sent_bytes = body_bytes cs })
    × (s.lines ≡ http_request method path code (body_bytes cs) ∷ [])
IsLogged method path cs (panics true) s =
    (s.aborted ≡ true)
    × (s.lines ≡ [])
    × (s.writer ≡ record { sent_status = first_status cs; sent_bytes = body_bytes cs })
IsLogged method path cs (panics false) s =
    (completed s
      ≡ record { sent_status = some (status_or (first_status cs) 500); sent_bytes = body_bytes cs })
    × (s.lines ≡ handler_panic method path ∷ [])

-- Of a handler that gives no interim status: if it returns, one line is logged, with the status and the
-- number of bytes that the client was sent; if it panics, one line about that is logged and none of the
-- access log, and the client is sent 500 if nothing was sent before; if it aborts, nothing is logged and
-- the panic goes on.
pub serve_logged-IsLogged :
    (method path : Text) (cs : List WriterCall) (ending : Ending)
    → AllFinal cs
    → IsLogged method path cs ending (serve_logged method path cs ending)
unfolding serve_logged access_log send_header
serve_logged-IsLogged method path cs ending f = by_ending ending
  where
    r : StatusRecorder
    r = record_all (new_recorder fresh) cs

    new_Agrees : Agrees (new_recorder fresh)
    new_Agrees = record { bytes = refl; sent = λ h. cc; unsent = λ h. (refl, refl) }

    agrees : Agrees r
    agrees = Agrees-record_all cs (new_recorder fresh) f new_Agrees

    sent :
        (r.response_writer.sent_status ≡ first_status cs)
        × (r.response_writer.sent_bytes ≡ 0 + body_bytes cs)
    sent = record_all_sent cs (new_recorder fresh) f new_Agrees

    total : r.response_writer.sent_bytes ≡ body_bytes cs
    total = omega (arith, sent.1)

    line :
        {c d m n : ℕ}
        → c ≡ d
        → m ≡ n
        → ◌≡◌ {A = List LogLine}
            (http_request method path c m ∷ [])
            (http_request method path d n ∷ [])
    line p q = cc

    by_ending :
        (ending : Ending) → IsLogged method path cs ending (serve_logged method path cs ending)
    by_ending returns = (
      writer_of _ _ _ (ap (λ (o : Option ℕ). or_sent o 200) sent.0 ∙ or_sent_200 (first_status cs))
          total,
      line (recorded_status r agrees ∙ ap (λ (o : Option ℕ). status_or o 200) sent.0)
          (agrees.bytes ∙ total),
    )
    by_ending (panics true) = (refl, refl, writer_of _ _ _ sent.0 total)
    by_ending (panics false) = (
      writer_of _ _ _
          (ap (λ (o : Option ℕ). or_sent (or_sent o 500) 200) sent.0
            ∙ or_sent_500 (first_status cs))
          total,
      refl,
    )
