-- ===== src/Packet/Tests.antt =====
-- Runs of the theorems on adding and extracting.
mod Reading
mod Sending
use mathlib.Core.Path.{refl}
use native.Mathlib.Decide.{ℕ_discrete}
use frnetlib.Base.{
  ℕ, ◌+◌, ◌^◌, ◌≤◌, ◌<◌, ◌≡◌, ◌≢◌, ◌↔◌, inl, inr, ◌∷◌, ◌++◌, [], arith, false, true, some, Bytes,
  List, length, pos, negsuc, All, IsByte, min, codes,
}
use frnetlib.Encoding.{big_endian, ByteOrder, little, big}
use frnetlib.Socket.{Status, success, Sent}
use frnetlib.TcpSocket.{TcpSocket, Arrival, chunk, Answer, takes, transport}
use frnetlib.TcpSocket.Stream.{
  pending, wire, read_budget, write_budget, receive_raw-Reads, send_raw-Writes,
}
use frnetlib.Packet.{
  Packet, ok, fail, undefined, add_raw, set_buffer, clear, extract_raw, extract_bool,
  extract_string, add_string, extract_word, add_word, new_packet,
}
use frnetlib.Packet.Safety.{IsReadable}
use frnetlib.Packet.Codec.{
  IsValid, unread, advance, encode_string, u8, u8-Lawful, string, string-Lawful, word-Lawful, word,
  Lawful,
}
use frnetlib.Packet.Collections.{add_vector, extract_vector, add_map, extract_map, find}
use frnetlib.Packet.RoundTrip.{Distinct, encode_vector, encode_pair}
use frnetlib.Packet.Exchange.{
  HasRoom, extract_word-add_word, extract_string-add_string, extract_vector-add_vector,
  extract_map-add_map,
}

-- An empty packet, and one with three bytes.
abbrev pub empty : Packet
empty = record { buffer = 0 ∷ 0 ∷ 0 ∷ 0 ∷ []; buffer_read_index = 4 }

abbrev pub three : Packet
three = record { buffer = 0 ∷ 0 ∷ 0 ∷ 0 ∷ 7 ∷ 8 ∷ 9 ∷ []; buffer_read_index = 4 }

pub empty-IsValid : IsValid empty
empty-IsValid = record { behind_header = omega arith; in_buffer = omega arith; fits = omega arith }

pub three-IsValid : IsValid three
three-IsValid = record { behind_header = omega arith; in_buffer = omega arith; fits = omega arith }

pub three-IsReadable : IsReadable three
three-IsReadable = record {
  valid = three-IsValid;
  bytes = (
    omega arith,
    (omega arith, (omega arith, (omega arith, (omega arith, (omega arith, (omega arith, tt)))))),
  );
}

empty-HasRoom : (n : ℕ) → n < 2 ^ 62 → HasRoom n empty
empty-HasRoom n h = record { valid = empty-IsValid; all_read = refl; fits = omega arith }

extract_word-add_word_example :
    extract_word big 4 (add_word little 4 0x01020304 empty)
    ≡ (ok 0x01020304, advance 4 (add_word little 4 0x01020304 empty))
extract_word-add_word_example =
    extract_word-add_word little big 4 0x01020304 empty (omega arith)
      (empty-HasRoom 4 (omega arith))

abbrev hello : Bytes
hello = codes "hello"

length-hello : length (encode_string hello) ≡ 9
unfolding big_endian
length-hello = refl

extract_string-add_string_example :
    extract_string little (add_string big hello empty)
    ≡ (ok hello, advance (length (encode_string hello)) (add_string big hello empty))
extract_string-add_string_example =
    extract_string-add_string big little hello empty (omega arith)
      (empty-HasRoom (length (encode_string hello)) (omega (arith, length-hello)))

-- A vector of bytes, and a map from bytes to strings.
abbrev some_bytes : List ℕ
some_bytes = 3 ∷ 1 ∷ 4 ∷ []

length-some_bytes : length (encode_vector (λ v. v ∷ []) some_bytes) ≡ 7
unfolding big_endian
length-some_bytes = refl

extract_vector-add_vector_example :
    extract_vector (u8 big) big (add_vector (u8 little) little some_bytes empty) ≡ (
      ok some_bytes,
      advance
          (length (encode_vector (λ v. v ∷ []) some_bytes))
          (add_vector (u8 little) little some_bytes empty),
    )
extract_vector-add_vector_example =
    extract_vector-add_vector (u8 little) (u8 big) (λ v. v ∷ []) (λ v. v < 256) (u8-Lawful little)
      (u8-Lawful big) little big some_bytes empty (omega arith)
      (omega arith, (omega arith, (omega arith, tt)))
      (empty-HasRoom (length (encode_vector (λ v. v ∷ []) some_bytes))
        (omega (arith, length-some_bytes)))

abbrev entries : List (ℕ × Bytes)
entries = (1, hello) ∷ (2, []) ∷ []

abbrev encode_entry : ℕ × Bytes → Bytes
encode_entry = encode_pair (λ v. v ∷ []) encode_string

length-entries : length (encode_vector encode_entry entries) ≡ 19
unfolding big_endian
length-entries = refl

entries-Distinct : Distinct ℕ_discrete [] entries
unfolding find ℕ_discrete
entries-Distinct = (refl, (refl, tt))

extract_map-add_map_example :
    extract_map ℕ_discrete
      (u8 big)
      (string big)
      big
      []
      (add_map ℕ_discrete (u8 little) (string little) little entries empty)
    ≡ (
      ok entries,
      advance
          (length (encode_vector encode_entry entries))
          (add_map ℕ_discrete (u8 little) (string little) little entries empty),
    )
extract_map-add_map_example =
    extract_map-add_map ℕ_discrete (u8 little) (u8 big) (λ v. v ∷ []) (λ v. v < 256) (string little)
      (string big) encode_string (λ v. length v < 2 ^ 32) (u8-Lawful little) (u8-Lawful big)
      (string-Lawful little) (string-Lawful big) little big entries empty (omega arith)
      ((omega arith, omega arith), ((omega arith, omega arith), tt)) entries-Distinct
      (empty-HasRoom (length (encode_vector encode_entry entries)) (omega (arith, length-entries)))
