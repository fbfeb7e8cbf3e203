-- ===== src/Protocols/Foscam/Cipher.antt =====
-- foscam.rs: a ciphered answer is read as the plain one.
use uscan.Prelude.{ℕ, ◌∷◌, ◌++◌}
use uscan.Prelude.{Bytes}

-- The 23 bytes of a header: the magic number, the type, the cipher flag, the key and the rest.
abbrev pub header : ℕ → ℕ → ℕ → Bytes → Bytes → Bytes
header t u flag key rest = 0x4d ∷ (0x4f ∷ (0x5f ∷ (0x49 ∷ (t ∷ (u ∷ (flag ∷ (key ++ rest)))))))
