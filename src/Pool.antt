-- ===== src/Pool.antt =====
-- client.go: the pool of transports of a client.
pub mod Counts
pub mod Rounds
pub mod Closing
mod Tests
use httpadapter.ClientTransport.{Connected, connected, refused}
use httpadapter.Common.{
  ℕ, ◌+◌, Bool, true, false, Option, none, some, List, [], ◌∷◌, ◌++◌, ◌==◌, if◌then◌else◌,
}

-- A transport that was made. `number` stands for the pointer, `used` is its field.
pub record Current : Type 0 where
  pub number : ℕ
  pub used : ℕ

abbrev pub max_uint64 : ℕ
max_uint64 = 18446744073709551615

-- The variables of `serve`: `current` is `t`. For the record, `made` is how many transports were made,
-- `given` the numbers of those that were handed out, `closed` of those that `serve` closed.
pub record Pool : Type 0 where
  pub current : Option Current
  pub keys : List ℕ
  pub made : ℕ
  pub given : List ℕ
  pub closed : List ℕ
  pub ended : Bool

abbrev pub start : Pool
start = record { current = none; keys = []; made = 0; given = []; closed = []; ended = false }

-- `newTransport`: a connection whose handshake fails is closed.
pub data Dialed : Type 0 where
  not_dialed dialed handshake_failed : Dialed

unfoldable pub new_transport : Bool → Connected → Dialed
new_transport false c = not_dialed
new_transport true (connected window rest) = dialed
new_transport true (Connected.failed e) = handshake_failed
new_transport true (refused code message) = handshake_failed

-- What `serve` receives. Of `asks`, the first tells if the done signal of the current transport was
-- given; if there is none, the second is what `newTransport` comes to.
pub data Event : Type 0 where
  asks : Bool → Dialed → Event
  removes : ℕ → Event
  closes : Event

-- The answer on the channel `ch`.
pub data Answer : Type 0 where
  transport : ℕ → Answer
  failed : Answer
  no_answer : Answer

unfoldable pub erase_key : ℕ → List ℕ → List ℕ
erase_key k [] = []
erase_key k (j ∷ keys) = let rest = erase_key k keys in if k == j then rest else j ∷ rest

-- The transport that is not healthy is forgotten.
abbrev pub healthy : Bool → Option Current → Option Current
healthy done none = none
healthy done (some t) = if done then none else some t

-- The transport is handed out, and forgotten when its ids may be used up.
abbrev pub hand_out : Pool → Current → Pool
hand_out p t = record p {
  given = p.given ++ (t.number ∷ []);
  current = if t.used == max_uint64 then none else some (record t { used = t.used + 1 });
}

abbrev pub make : Pool → Pool
make p = record p { keys = p.made ∷ p.keys; made = p.made + 1 }

unfoldable pub ask : Dialed → Pool → Option Current → Pool × Answer
ask d p (some t) = (hand_out p t, transport t.number)
ask dialed p none = (hand_out (make p) (record { number = p.made; used = 1 }), transport p.made)
ask not_dialed p none = (record p { current = none }, failed)
ask handshake_failed p none = (record p { current = none }, failed)

-- A round of the loop; after `closes` the loop has ended and has closed what is in the map.
unfoldable pub step : Pool → Event → Pool × Answer
step p (asks done d) = if p.ended then (p, no_answer) else ask d p (healthy done p.current)
step p (removes k) =
    if p.ended then (p, no_answer) else (record p { keys = erase_key k p.keys }, no_answer)
step p closes =
    if p.ended then (p, no_answer) else (record p { ended = true; closed = p.keys }, no_answer)

unfoldable pub run : Pool → List Event → Pool
run p [] = p
run p (e ∷ es) = run (step p e).0 es

-- `Close` of a client, with its flag: if it closes `done`, and if it returns no error.
abbrev pub close : Bool → Bool × Bool
close closed = if closed then (true, false) else (true, true)

-- `DialContext`: what the two selects meet first, and the outcome; a transport goes on to `Create`.
pub data Meets {ℓ} (A : Type ℓ) : Type ℓ where
  context_done client_done : Meets A
  goes : A → Meets A

pub data Dialing : Type 0 where
  context_error client_closed dial_error : Dialing
  creates : ℕ → Dialing

abbrev pub answered : Answer → Dialing
answered (transport n) = creates n
answered failed = dial_error
answered no_answer = client_closed

unfoldable pub dial_context : Meets (Meets Answer) → Dialing
dial_context context_done = context_error
dial_context client_done = client_closed
dial_context (goes context_done) = context_error
dial_context (goes client_done) = client_closed
dial_context (goes (goes a)) = answered a
