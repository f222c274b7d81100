-- ===== src/Pipe/ReadWriter/Contents.antt =====
-- The bytes that the ring holds, oldest first, and its invariant.
use native.Mathlib.Nat.{mod-eq_of_lt, mod-eq-sub-mod}
use native.Mathlib.Decide.{dec_lt}
use httpadapter.Common.{
  ℕ, ◌+◌, ◌-◌, ◌%◌, ◌≤◌, ◌<◌, ◌≡◌, refl, ◌∙◌, ◌⊎◌, inl, inr, arith, length, get_or, table,
  length-table,
}
use httpadapter.Common.Bytes.{Bytes}
use httpadapter.Pipe.ReadWriter.{ReadWriter, new_read_writer, clear}

pub record IsValid (r : ReadWriter) : Type 0 where
  pub fits : r.size ≤ length r.buffer
  pub placed : 0 < length r.buffer → r.offset < length r.buffer

abbrev pub byte_at : ReadWriter → ℕ → ℕ
byte_at r k = get_or r.buffer ((r.offset + k) % length r.buffer) 0

abbrev pub contents : ReadWriter → Bytes
contents r = table r.size (byte_at r)

pub length-contents : (r : ReadWriter) → length (contents r) ≡ r.size
length-contents r = length-table r.size (byte_at r)

-- Going round the buffer at most once.
pub mod_wrapped : (x c : ℕ) → x < c + c → ((x < c) × (x % c ≡ x)) ⊎ ((c ≤ x) × (x % c ≡ x - c))
mod_wrapped x c h = elim (dec_lt x c) [
  | yes below ↦ inl (below, mod-eq_of_lt below)
  | no above ↦
      let le : c ≤ x = omega arith in inr (le, mod-eq-sub-mod le ∙ mod-eq_of_lt (omega arith))
]

pub new_read_writer-IsValid : (buffer : Bytes) → IsValid (new_read_writer buffer)
unfolding new_read_writer
new_read_writer-IsValid buffer = omega arith

-- `Clear` leaves an empty ring over the same buffer.
pub clear-IsValid : (r : ReadWriter) → IsValid (clear r) × (length (contents (clear r)) ≡ 0)
unfolding clear
clear-IsValid r = (omega arith, refl)
