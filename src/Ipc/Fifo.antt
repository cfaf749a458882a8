-- ===== src/Ipc/Fifo.antt =====
-- What a mailbox promises: a queue of at most four messages, oldest first.
use mx_os.Prelude.{
  ℕ, zero, suc, ◌+◌, Option, none, some, List, [], ◌∷◌, ◌++◌, length, leb, ltb, if◌then◌else◌,
}
use mx_os.Prelude.Int.{pos}
use mx_os.Ipc.{Message}

-- The first `n` bytes from offset `k` on.
unfoldable pub bytes_from : ℕ → ℕ → (ℕ → ℕ) → List ℕ
bytes_from zero k src = []
bytes_from (suc n) k src = src k ∷ bytes_from n (k + 1) src

-- A message of at most 128 bytes; longer data is cut off.
unfoldable pub message : (ℕ → ℕ) → ℕ → ℕ → Message
message src len sender = record {
  bytes = bytes_from (if ltb 128 len then 128 else len) 0 src;
  sender = pos sender;
}

unfoldable pub send : List Message → Message → ℕ × List Message
send q m = if leb 4 (length q) then (0, q) else (1, q ++ m ∷ [])

unfoldable pub receive : List Message → Option Message × List Message
receive [] = (none, [])
receive (m ∷ q) = (some m, q)
