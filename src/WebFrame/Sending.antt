-- ===== src/WebFrame/Sending.antt =====
-- What sending a frame puts on the wire, told without the functions that make it.
use Prim.Native.Nat.{bit_xor}
use frnetlib.Base.{ℕ, ◌%◌, ◌≤◌, ◌<◌, ◌≡◌, ◌⊎◌, Bool, [], ◌++◌, Bytes, if◌then◌else◌, length, get_or}
use frnetlib.Encoding.{big_endian}
use frnetlib.WebFrame.{WebFrame}
use frnetlib.WebFrame.Header.{FieldsOf}

-- How a payload of `n` bytes has its length sent: the seven bits, and the bytes behind the first two.
abbrev pub LengthOf : ℕ → ℕ → Bytes → Type 0
LengthOf n len more =
    ((n ≤ 125) × (len ≡ n) × (more ≡ []))
    ⊎ ((126 ≤ n) × (n < 0xffff) × (len ≡ 126) × (more ≡ big_endian 2 n))
    ⊎ ((0xffff ≤ n) × (len ≡ 127) × (more ≡ big_endian 8 n))

-- The bytes of a frame: two with the fields, in network order, the rest of the length, the key of a client, the payload
-- as it is sent.
abbrev pub IsFrame : Bool → Bytes → WebFrame → Bytes → Type 0
IsFrame is_client key f bytes =
    (w : ℕ) × (len : ℕ) × (more : Bytes) × FieldsOf w f.final f.opcode is_client len
    × LengthOf (length f.payload) len more
    × (bytes ≡ big_endian 2 w ++ (more ++ ((if is_client then key else []) ++ f.payload)))

-- The payload of a client is masked, byte by byte, with the key's bytes in turn; that of a server is left.
abbrev pub IsMasked : Bool → Bytes → Bytes → Bytes → Type 0
IsMasked is_client key payload sent =
    (length sent ≡ length payload)
    × ((i : ℕ)
        → i < length payload
        → get_or sent i 0 ≡ (
            if is_client
            then bit_xor (get_or payload i 0) (get_or key (i % 4) 0)
            else get_or payload i 0))
