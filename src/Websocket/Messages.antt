-- ===== src/Websocket/Messages.antt =====
-- What a whole message looks like on the connection.
use httpadapter.Common.{
  ℕ, suc, ◌+◌, ◌-◌, ◌*◌, ◌≤◌, ◌<◌, ◌≡◌, refl, ap, ◌∙◌, Bool, true, false, Option, none, some, List,
  [], ◌∷◌, ◌++◌, append_assoc, arith, if◌then◌else◌, length, All, flatten,
}
use httpadapter.Common.Bytes.{Bytes, put_uint}
use httpadapter.Websocket.{
  Conn, put, WriterError, writer_closed, Writer, next_writer, close, write_end, write_body,
  write_after_type, write_first, write, close_after, write_message,
}
use httpadapter.Websocket.Frames.{IsPayload, framed, put_lem, write_frames_all}

-- What a call of `Write` does that writes all of `b`.
abbrev Writes : Writer → Bytes → Option (ℕ × Option WriterError × Writer) → Type 0
Writes w b r =
    (ps : List Bytes) × (c' : Conn) × (r ≡ some (length b, none, record w { conn = c' }))
    × (c'.out ≡ w.conn.out ++ framed ps)
    × (w.conn.takes ≤ c'.takes + 2 * length b)
    × (flatten ps ≡ b)
    × All IsPayload ps

write_body-Writes :
    (w : Writer) (b : Bytes) → 2 * length b ≤ w.conn.takes → Writes w b (write_body w b)
unfolding write_body write_end
write_body-Writes w b room =
    let (ps, c', e, out, takes, all, good) =
      write_frames_all (suc (length b)) 0 b w.conn (omega arith) room in
    (
      ps,
      c',
      ap (write_end w) e ∙ ap (λ (k : ℕ). some (k, none, record w { conn = c' })) (omega arith),
      out,
      takes,
      all,
      good,
    )

write_no_error : (w : Writer) (b : Bytes) → w.err ≡ none → write w b ≡ write_first w b
unfolding write
write_no_error w b e =
    ap
      (λ (o : Option WriterError). elim o [ some x ↦ some (0, some x, w) | none ↦ write_first w b ])
      e

write_typed :
    (w : Writer) (b : Bytes) → w.err ≡ none → w.writerd ≡ true → write w b ≡ write_body w b
unfolding write_first
write_typed w b e f =
    write_no_error w b e
    ∙ ap (λ (x : Bool). if x then write_body w b else write_after_type w b (put (w.t ∷ []) w.conn))
        f

write_untyped :
    (w : Writer) (b : Bytes)
    → w.err ≡ none
    → w.writerd ≡ false
    → 0 < w.conn.takes
    → write w b
      ≡ write_body
          (record w {
            conn = record { out = w.conn.out ++ w.t ∷ []; takes = w.conn.takes - 1 };
            writerd = true;
          })
          b
unfolding write_first write_after_type
write_untyped w b e f h =
    write_no_error w b e
    ∙ ap (λ (x : Bool). if x then write_body w b else write_after_type w b (put (w.t ∷ []) w.conn))
        f
    ∙ ap (write_after_type w b) (put_lem (w.t ∷ []) w.conn h)

-- `Close` of an open writer with a call left.
close_open :
    (w : Writer)
    → w.closed ≡ false
    → 0 < w.conn.takes
    → close w ≡ (
      none,
      record w {
        closed = true;
        conn = record { out = w.conn.out ++ 1 ∷ put_uint 2 0; takes = w.conn.takes - 1 };
      },
    )
unfolding close
close_open w open_still h =
    ap
      (λ (x : Bool).
        if x
        then (some writer_closed, record w { err = some writer_closed })
        else (none, record w { closed = true; conn = (put (1 ∷ put_uint 2 0) w.conn).1 }))
      open_still
    ∙ ap (λ (x : Bool × Conn). (none, record w { closed = true; conn = x.1 }))
        (put_lem (1 ∷ put_uint 2 0) w.conn h)

-- A closed writer does not refuse data: once the type was sent, a `Write` after the first `Close`
-- succeeds and puts its frames behind the end of the message, on a connection that takes them.
pub writes_after_close :
    (w : Writer) (b : Bytes)
    → w.err ≡ none
    → w.writerd ≡ true
    → w.closed ≡ false
    → 2 * length b + 1 ≤ w.conn.takes
    → (ps : List Bytes) × (w' : Writer) × (write (close w).1 b ≡ some (length b, none, w'))
      × (w'.conn.out ≡ (w.conn.out ++ 1 ∷ put_uint 2 0) ++ framed ps)
      × (flatten ps ≡ b)
writes_after_close w b no_error typed open_still room =
    let w1 : Writer = record w {
      closed = true;
      conn = record { out = w.conn.out ++ 1 ∷ put_uint 2 0; takes = w.conn.takes - 1 };
    } in
    let (ps, c', e, out, takes, all, good) = write_body-Writes w1 b (omega arith) in
    (
      ps,
      record w1 { conn = c' },
      ap (λ (x : Option WriterError × Writer). write x.1 b) (close_open w open_still (omega arith))
          ∙ write_typed w1 b no_error typed
          ∙ e,
      out,
      all,
    )

-- A message of a known type, on a connection that takes all the calls, is written completely and
-- without an error: its type, then frames from 1 to 65535 bytes that hold it in order, then the end
-- of the message.
pub message_layout :
    (known : ℕ → Bool) (t : ℕ) (b : Bytes) (c : Conn)
    → known t ≡ true
    → 2 * length b + 2 ≤ c.takes
    → (ps : List Bytes) × (c' : Conn) × (write_message known t b c ≡ some (length b, none, c'))
      × (c'.out ≡ c.out ++ t ∷ (framed ps ++ 1 ∷ put_uint 2 0))
      × (c.takes ≤ c'.takes + (2 * length b + 2))
      × (flatten ps ≡ b)
      × All IsPayload ps
unfolding write_message next_writer close_after
message_layout known t b c k room =
    let w0 : Writer = record { t = t; conn = c; closed = false; writerd = false; err = none } in
    let w1 : Writer = record w0 {
      conn = record { out = c.out ++ t ∷ []; takes = c.takes - 1 };
      writerd = true;
    } in
    let (ps, c', e, out, takes, all, good) = write_body-Writes w1 b (omega arith) in
    let w2 : Writer = record w1 { conn = c' } in
    (
      ps,
      record { out = c'.out ++ 1 ∷ put_uint 2 0; takes = c'.takes - 1 },
      rw (k, write_message, next_writer)
          (ap close_after (write_untyped w0 b refl refl (omega arith) ∙ e)
            ∙ ap (λ (x : Option WriterError × Writer). some (length b, x.0, x.1.conn))
                (close_open w2 refl (omega (arith, takes)))),
      ap (λ (x : Bytes). x ++ 1 ∷ put_uint 2 0) out
          ∙ append_assoc (c.out ++ t ∷ []) (framed ps) (1 ∷ put_uint 2 0)
          ∙ append_assoc c.out (t ∷ []) (framed ps ++ 1 ∷ put_uint 2 0),
      omega (arith, takes),
      all,
      good,
    )
