-- ===== src/Relay/ToClient.antt =====
-- Messages of the backend to the client.
use httpadapter.Common.{
  ℕ, ◌+◌, ◌-◌, ◌≤◌, ◌<◌, ◌≡◌, refl, sym, ap, ◌∙◌, Bool, true, none, some, List, [], ◌∷◌, ◌++◌,
  append_assoc, arith, if◌then◌else◌, length, All, flatten,
}
use httpadapter.Common.Bytes.{Bytes, put_uint}
use httpadapter.Core.Hello.{max_uint16}
use httpadapter.Websocket.{Conn}
use httpadapter.Websocket.Frames.{IsPayload, framed, put_lem}
use httpadapter.Websocket.Reader.{message, read_message}
use httpadapter.Websocket.Reader.Whole.{final, framed_rest, message_read}
use httpadapter.Relay.{with_end, goes_on, stops, frame, written, read_loop, read_ws}

abbrev after : Bytes → Conn → Conn
after x c = record { out = c.out ++ x; takes = c.takes - 1 }

frame-append :
    (flag : ℕ) (p y : Bytes) → frame flag p ++ y ≡ flag ∷ (put_uint 2 (length p) ++ (p ++ y))
frame-append flag p y = ap (◌∷◌ flag) (append_assoc (put_uint 2 (length p)) p y)

pieces_written :
    (ps : List Bytes) (q : Bytes) (c : Conn)
    → length ps < c.takes
    → (c' : Conn) × (read_loop ps (with_end q) c ≡ (goes_on, c'))
      × (c'.out ≡ c.out ++ (framed ps ++ final q))
      × (c'.takes ≡ c.takes - (length ps + 1))
unfolding read_loop
pieces_written [] q c room =
    (after (final q) c, ap written (put_lem (final q) c room), refl, omega arith)
pieces_written (p ∷ ps) q c room =
    let first = put_lem (frame 0 p) c (omega arith) in
    let (c', e, out, left) = pieces_written ps q (after (frame 0 p) c) (omega arith) in
    (
      c',
      ap (λ (r : Bool × Conn). if r.0 then read_loop ps (with_end q) r.1 else (stops true, c)) first
          ∙ e,
      out
          ∙ append_assoc c.out (frame 0 p) (framed ps ++ final q)
          ∙ ap (◌++◌ c.out)
              (frame-append 0 p (framed ps ++ final q) ∙ sym (framed_rest p ps (final q))),
      omega (arith, left),
    )

-- What `readWS` writes for a message.
abbrev pub wire : ℕ → Bytes → List Bytes → Bytes → Bytes
wire t p ps q = t ∷ (frame 0 p ++ (framed ps ++ final q))

pub wire_written :
    (t : ℕ) (p : Bytes) (ps : List Bytes) (q : Bytes) (c : Conn)
    → length ps + 1 < c.takes
    → (c' : Conn) × (read_ws (some (record { t = t; pieces = p ∷ ps; ending = with_end q })) c
        ≡ (goes_on, c'))
      × (c'.out ≡ c.out ++ wire t p ps q)
      × (c'.takes ≡ c.takes - (length ps + 2))
unfolding read_ws
wire_written t p ps q c room =
    let head = t ∷ frame 0 p in
    let first = put_lem head c (omega arith) in
    let (c', e, out, left) = pieces_written ps q (after head c) (omega arith) in
    (
      c',
      ap (λ (r : Bool × Conn). if r.0 then read_loop ps (with_end q) r.1 else (stops true, c)) first
          ∙ e,
      out ∙ append_assoc c.out head (framed ps ++ final q),
      omega (arith, left),
    )

pub wire_read :
    (sizes : ℕ → ℕ) (t : ℕ) (p : Bytes) (ps : List Bytes) (q tail : Bytes)
    → length p ≤ max_uint16
    → All IsPayload ps
    → length q ≤ max_uint16
    → read_message sizes (wire t p ps q ++ tail) ≡ message t (p ++ (flatten ps ++ q)) none tail
wire_read sizes t p ps q tail short good small =
    ap (λ (x : Bytes). read_message sizes (t ∷ x))
      (append_assoc (frame 0 p) (framed ps ++ final q) tail
        ∙ ap (◌++◌ (frame 0 p)) (append_assoc (framed ps) (final q) tail)
        ∙ frame-append 0 p (framed ps ++ (final q ++ tail)))
    ∙ message_read sizes t p ps q tail short good small

-- A message of the backend reaches the client. If a read comes before the one that returns the end,
-- none between returns nothing, none more than 65535 bytes, and the channel takes all the calls,
-- then `ReadMessage` of the client, on what `readWS` wrote, returns the type and all the data in order without an error, and leaves
-- what follows it.
pub backend_message_read :
    (sizes : ℕ → ℕ) (t : ℕ) (p : Bytes) (ps : List Bytes) (q : Bytes) (c : Conn)
    → length p ≤ max_uint16
    → All IsPayload ps
    → length q ≤ max_uint16
    → length ps + 1 < c.takes
    → (x : Bytes) × (c' : Conn) × (read_ws
          (some (record { t = t; pieces = p ∷ ps; ending = with_end q }))
          c
        ≡ (goes_on, c'))
      × (c'.out ≡ c.out ++ x)
      × ((tail : Bytes)
          → read_message sizes (x ++ tail) ≡ message t (p ++ (flatten ps ++ q)) none tail)
backend_message_read sizes t p ps q c short good small room =
    let (c', e, out, left) = wire_written t p ps q c room in
    (wire t p ps q, c', e, out, λ tail. wire_read sizes t p ps q tail short good small)
