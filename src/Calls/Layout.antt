-- ===== src/Calls/Layout.antt =====
-- The layout of a message: what each side reads of what the other writes.
use httpadapter.Common.{
  ℕ, ◌%◌, ◌≤◌, ◌≡◌, refl, ap, ap₂, ◌∙◌, Option, [], ◌∷◌, ◌++◌, arith, length, take, drop,
  length-append, take-append, drop-append,
}
use httpadapter.Common.Bytes.{Bytes, put_uint, uint, length-put_uint, uint-put_uint}
use httpadapter.Common.Io.{full, read_full, read_full-append}
use httpadapter.Calls.{ClientMetadata, ServerMetadata, Uri, max_int64, head, unmarshal}
use httpadapter.Calls.Client.{read_response, on_lengths, on_head}
use httpadapter.Calls.Handler

length-head : (n m : ℕ) → length (head n m) ≡ 10
length-head n m =
    omega
      (arith, length-append (put_uint 2 n) (put_uint 8 m), length-put_uint 2 n, length-put_uint 8 m)

head_read : (n m : ℕ) (rest : Bytes) → read_full 10 (head n m ++ rest) ≡ full (head n m) rest
head_read n m rest = read_full-append 10 (head n m) rest (length-head n m)

put_uint_wraps : (n : ℕ) → put_uint 2 n ≡ put_uint 2 (n % 65536)
unfolding put_uint
put_uint_wraps n = ap₂ (λ (a b : ℕ). a ∷ b ∷ []) (omega arith) (omega arith)

metalen_read : (n m : ℕ) → uint (take 2 (head n m)) ≡ n % 65536
metalen_read n m =
    ap uint (take-append 2 (put_uint 2 n) (put_uint 8 m) (length-put_uint 2 n) ∙ put_uint_wraps n)
    ∙ uint-put_uint 2 (n % 65536) (omega arith)

bodylen_read : (n m : ℕ) → m ≤ max_int64 → uint (drop 2 (head n m)) ≡ m
bodylen_read n m h =
    ap uint (drop-append 2 (put_uint 2 n) (put_uint 8 m) (length-put_uint 2 n))
    ∙ uint-put_uint 8 m (omega arith)

-- The client reads a message up to its metadata.
pub response_head :
    (decode : Bytes → Option ServerMetadata) (canonical : Bytes → Bytes) (n m : ℕ) (rest : Bytes)
    → m ≤ max_int64
    → read_response decode canonical (head n m ++ rest)
      ≡ on_lengths decode canonical (n % 65536) m rest
unfolding read_response
response_head decode canonical n m rest h =
    ap (on_head decode canonical) (head_read n m rest)
    ∙ ap₂ (λ (i j : ℕ). on_lengths decode canonical i j rest) (metalen_read n m)
        (bodylen_read n m h)

module _ (decode : Bytes → Option ClientMetadata) (canonical : Bytes → Bytes)
    (parse : Bytes → Option Uri) (print : Uri → Bytes) (hook : Option (Uri → Option Uri)) where
  -- The server reads a message that fits.
  pub request_read :
      (md : Bytes) (m : ℕ) (rest : Bytes)
      → length md ≤ 65535
      → m ≤ max_int64
      → Handler.serve decode canonical parse print hook (head (length md) m ++ (md ++ rest))
        ≡ Handler.on_metadata decode canonical parse print hook m rest
            (unmarshal canonical (decode md))
  unfolding Handler.serve
  request_read md m rest fits h =
      ap (Handler.on_head decode canonical parse print hook) (head_read (length md) m (md ++ rest))
      ∙ ap₂
          (λ (i j : ℕ).
            Handler.on_metadata_bytes decode canonical parse print hook j
              (read_full i (md ++ rest)))
          (metalen_read (length md) m ∙ omega arith) (bodylen_read (length md) m h)
      ∙ ap (Handler.on_metadata_bytes decode canonical parse print hook m)
          (read_full-append (length md) md rest refl)
