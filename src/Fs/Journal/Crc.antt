-- ===== src/Fs/Journal/Crc.antt =====
-- journal_crc: CRC-32 of the header's bytes before its crc field, words 0 to 11 in memory order.
use Prim.Native.Nat.{bit_xor}
use unix_os.Prelude.{ℕ, ◌/◌, ◌%◌, sub32, bit_and, ◌^◌, suc, ◌+◌, zero}

abbrev pub crc_words : ℕ
crc_words = 12

-- crc = (crc >> 1) ^ (0xEDB88320u & mask), mask = -(crc & 1u)
unfoldable pub crc_bit : ℕ → ℕ
crc_bit crc = bit_xor (crc / 2) (bit_and 0xEDB88320 (sub32 0 (bit_and crc 1)))

unfoldable pub crc_bits : ℕ → ℕ → ℕ
unfolding crc_bit
crc_bits zero crc = crc
crc_bits (suc b) crc = crc_bits b (crc_bit crc)

unfoldable pub crc_byte : ℕ → ℕ → ℕ
unfolding crc_bits
crc_byte crc byte = crc_bits 8 (bit_xor crc byte)

-- The four bytes of a word, lowest first.
unfoldable pub crc_word : ℕ → ℕ → ℕ
unfolding crc_byte
crc_word crc w =
    crc_byte (crc_byte (crc_byte (crc_byte crc (w % 256)) (w / 2 ^ 8 % 256)) (w / 2 ^ 16 % 256))
      (w / 2 ^ 24 % 256)

-- n words of h from index i on
unfoldable pub crc_from : ℕ → ℕ → (ℕ → ℕ) → ℕ → ℕ
unfolding crc_word
crc_from zero i h crc = crc
crc_from (suc n) i h crc = crc_from n (i + 1) h (crc_word crc (h i))

unfoldable pub journal_crc : (ℕ → ℕ) → ℕ
unfolding crc_from
journal_crc h = sub32 0xFFFFFFFF (crc_from crc_words 0 h 0xFFFFFFFF)
