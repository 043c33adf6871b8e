-- ===== src/Connection/Queue.antt =====
-- `Flush` loses no byte and changes no order; it repeats bytes only where it fails.
use mevent.Common.{
  ℕ, Bytes, List, [], ◌∷◌, ◌++◌, ◌+◌, ◌≤◌, ◌≡◌, ◌⊎◌, length, drop, some, append_assoc, append-nil,
  ap, ◌∙◌, sym,
}
use mevent.Connection.{
  WriteResult, wrote, failed_after, error, WriteBuffer, Connection, flush_chain, write_string,
  write_buffer,
}

-- The bytes that wait, oldest first.
abbrev pub pending : List WriteBuffer → Bytes
pending [] = []
pending (wb ∷ chain) = drop wb.write_len wb.str ++ pending chain

-- `len` is the length of the string.
abbrev pub IsBuffer : WriteBuffer → Type 0
IsBuffer wb = (wb.len ≡ length wb.str) × (wb.write_len ≤ wb.len)

-- `Writen` writes at most the bytes it is given.
abbrev pub Writes : List WriteBuffer → List WriteResult → Type 0
Writes [] results = Unit
Writes (wb ∷ chain) [] = Unit
Writes (wb ∷ chain) (failed_after n ∷ results) = wb.write_len + n ≤ wb.len
Writes (wb ∷ chain) (wrote n ∷ results) = (wb.write_len + n ≤ wb.len) × Writes chain results

-- What has gone out is what the queue no longer holds and, only where it has failed, a first part of
-- what it still holds.
pub record Conserved (before sent after : Bytes) (failed : Type 0) : Type 0 where
  pub whole : Bytes
  pub extra : Bytes
  pub rest : Bytes
  pub out : sent ≡ whole ++ extra
  pub kept : whole ++ after ≡ before
  pub twice : after ≡ extra ++ rest
  pub only : (extra ≡ []) ⊎ failed

abbrev ChainConserved : List WriteBuffer → List WriteResult → Type 0
ChainConserved chain results =
    let loop = flush_chain chain results in
    Conserved (pending chain) loop.sent (pending loop.chain) (loop.returned ≡ some error)

pending_snoc :
    (chain : List WriteBuffer) (str : Bytes)
    → pending (chain ++ (write_buffer str ∷ [])) ≡ pending chain ++ str
pending_snoc [] str = append-nil str
pending_snoc (wb ∷ chain) str =
    ap (λ tail. drop wb.write_len wb.str ++ tail) (pending_snoc chain str)
    ∙ sym (append_assoc (drop wb.write_len wb.str) (pending chain) str)

-- `WriteString` on an open connection puts the text behind all that waits.
pub write_string-pending :
    (c : Connection) (fd : ℕ) (str : Bytes)
    → c.fd ≡ some fd
    → pending (write_string c str).write_buffer_chain ≡ pending c.write_buffer_chain ++ str
write_string-pending c fd [] e = sym (append-nil (pending c.write_buffer_chain))
write_string-pending c fd (b ∷ str) e = rw e (pending_snoc c.write_buffer_chain (b ∷ str))
