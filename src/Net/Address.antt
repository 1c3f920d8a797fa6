-- ===== src/Net/Address.antt =====
-- Net::Addr2Str and Str2Addr. fmt's "{:02x}" of a byte is an argument; sscanf's "%02hhx" is read as
-- up to two hexadecimal digits at the position, with no space, sign or prefix before them, which do
-- not occur in what Addr2Str writes.
use aws_efa_examples.Common.{
  ℕ, zero, suc, ◌+◌, ◌-◌, ◌*◌, ◌/◌, ◌%◌, ◌≤◌, ◌<◌, ◌≡◌, refl, ap, ◌&&◌, Option, none, some, List,
  [], ◌∷◌, ◌++◌, ltb, leb, if◌then◌else◌, concat_map, All, length, take, drop, arith,
}

abbrev pub k_addr_size : ℕ
k_addr_size = 32

abbrev pub k_max_addr_size : ℕ
k_max_addr_size = 64

-- The character of a digit below 16.
abbrev pub hex_digit : ℕ → ℕ
hex_digit d = if ltb d 10 then b'0' + d else b'a' + (d - 10)

abbrev pub digit_value : ℕ → Option ℕ
digit_value c =
    if leb b'0' c && leb c b'9'
    then some (c - b'0')
    else if leb b'a' c && leb c b'f'
    then some (c - b'a' + 10)
    else if leb b'A' c && leb c b'F'
    then some (c - b'A' + 10)
    else none

-- What sscanf stores, or none where no digit stands.
abbrev pub second_digit : ℕ → List ℕ → ℕ
second_digit d [] = d
second_digit d (c ∷ _) = elim (digit_value c) [ none ↦ d | some e ↦ d * 16 + e ]

unfoldable pub scan_hex : List ℕ → Option ℕ
scan_hex [] = none
scan_hex (c ∷ cs) = elim (digit_value c) [ none ↦ none | some d ↦ some (second_digit d cs) ]

-- Addr2Str, over the first kAddrSize bytes of the array.
unfoldable pub addr_to_str : (ℕ → List ℕ) → List ℕ → List ℕ
addr_to_str fmt_02x addr = concat_map fmt_02x (take k_addr_size addr)

-- The loop of Str2Addr: `bytes` is the output array from the position on, which keeps a byte where
-- nothing is scanned.
unfoldable pub scan_bytes : (n : ℕ) → List ℕ → List ℕ → List ℕ
unfolding scan_hex
scan_bytes zero addr bytes = bytes
scan_bytes (suc n) addr [] = []
scan_bytes (suc n) addr (b ∷ bs) =
    (elim (scan_hex addr) [ none ↦ b | some v ↦ v ]) ∷ scan_bytes n (drop 2 addr) bs

-- Str2Addr.
unfoldable pub str_to_addr : List ℕ → List ℕ → List ℕ
unfolding scan_bytes
str_to_addr addr bytes = scan_bytes k_addr_size addr bytes

-- fmt writes a byte as its two lower-case digits.
abbrev pub WritesHex : (ℕ → List ℕ) → Type 0
WritesHex fmt_02x = (b : ℕ) → b < 256 → fmt_02x b ≡ hex_digit (b / 16) ∷ hex_digit (b % 16) ∷ []

digit_value-hex_digit : (d : ℕ) → d < 16 → digit_value (hex_digit d) ≡ some d
digit_value-hex_digit d h = ground arith

scan_hex-digits :
    (b : ℕ) (rest : List ℕ)
    → b < 256
    → scan_hex (hex_digit (b / 16) ∷ hex_digit (b % 16) ∷ rest) ≡ some b
unfolding scan_hex
scan_hex-digits b rest h =
    rw
      (
        scan_hex,
        second_digit,
        digit_value-hex_digit (b / 16) (omega arith),
        digit_value-hex_digit (b % 16) (omega arith),
      )
      (ap some (omega arith))

scan_bytes-concat_map :
    (fmt_02x : ℕ → List ℕ) (writes : WritesHex fmt_02x) (n : ℕ) (addr bytes : List ℕ)
    → All (λ b. b < 256) addr
    → n ≤ length addr
    → n ≤ length bytes
    → scan_bytes n (concat_map fmt_02x (take n addr)) bytes ≡ take n addr ++ drop n bytes
unfolding scan_bytes
scan_bytes-concat_map fmt_02x writes zero addr bytes a h k = refl
scan_bytes-concat_map fmt_02x writes (suc n) [] bytes a h k = absurd (omega arith)
scan_bytes-concat_map fmt_02x writes (suc n) (b ∷ addr) [] a h k = absurd (omega arith)
scan_bytes-concat_map fmt_02x writes (suc n) (b ∷ addr) (c ∷ bytes) a h k =
    rw
      (
        writes b (a.0),
        scan_hex-digits b (concat_map fmt_02x (take n addr)) (a.0),
        scan_bytes-concat_map fmt_02x writes n addr bytes (a.1) (omega arith) (omega arith),
      )
      refl

-- Where fmt writes each byte as two hexadecimal digits, reading back the text of an address of at
-- least 32 bytes gives its first 32 bytes, and leaves the rest of the output array alone.
pub str_to_addr-addr_to_str :
    (fmt_02x : ℕ → List ℕ) (addr bytes : List ℕ)
    → WritesHex fmt_02x
    → All (λ b. b < 256) addr
    → k_addr_size ≤ length addr
    → k_addr_size ≤ length bytes
    → str_to_addr (addr_to_str fmt_02x addr) bytes ≡ take k_addr_size addr ++ drop k_addr_size bytes
unfolding str_to_addr addr_to_str
str_to_addr-addr_to_str fmt_02x addr bytes writes a h k =
    scan_bytes-concat_map fmt_02x writes k_addr_size addr bytes a h k
