-- ===== src/Packet/Tests/Reading.antt =====
-- Runs of the theorems on the cursor and on bytes from a peer.
use native.Mathlib.Decide.{ℕ_discrete}
use frnetlib.Base.{
  ◌+◌, ◌^◌, ◌≤◌, ◌<◌, ◌≡◌, ◌↔◌, ◌∷◌, [], arith, length, ◌-◌, pos, negsuc, All, IsByte,
}
use frnetlib.Encoding.{little, big}
use frnetlib.Packet.{fail, out_of_range, undefined, extract_word, set_buffer, extract_raw}
use frnetlib.Packet.Codec.{string, word}
use frnetlib.Packet.Collections.{extract_vector, extract_map}
use frnetlib.Packet.Cursor.{
  seek_cursor, seek_cursor-target, seek_cursor_overflow, get_bytes_remaining,
  get_bytes_remaining-set_buffer,
}
use frnetlib.Packet.Safety.{
  Ends, Any, extract_word-IsSafe, extract_string-IsSafe, extract_vector-Ends, extract_map-Ends,
}
use frnetlib.Packet.Undefined.{extract_raw-undefined}
use frnetlib.Packet.Tests.{three, three-IsValid, three-IsReadable}

seek_cursor-target_example : seek_cursor (negsuc 9) three ≡ record three { buffer_read_index = 4 }
seek_cursor-target_example = seek_cursor-target (negsuc 9) three three-IsValid (omega arith)

seek_cursor_overflow_example :
    seek_cursor (pos (2 ^ 63 - 1)) three ≡ record three { buffer_read_index = 4 }
seek_cursor_overflow_example =
    seek_cursor_overflow (2 ^ 63 - 1) three three-IsValid (omega arith) (omega arith)

get_bytes_remaining-set_buffer_example :
    (get_bytes_remaining (set_buffer (1 ∷ []) three) ≡ 2 ^ 64 - 3)
    × ((extract_word big 4 (set_buffer (1 ∷ []) three)).0 ≡ fail out_of_range)
get_bytes_remaining-set_buffer_example =
    get_bytes_remaining-set_buffer big 4 (1 ∷ []) three three-IsValid (omega arith) (omega arith)

extract_vector-Ends_example :
    Ends
      (λ xs. (length xs < 2 ^ 32) × All (All IsByte) xs)
      three
      (extract_vector (string big) big three)
extract_vector-Ends_example =
    extract_vector-Ends (string big) (All IsByte) (extract_string-IsSafe big) big three
      three-IsReadable

extract_map-Ends_example :
    Ends Any three
      (extract_map ℕ_discrete (word little 4) (string little) little ((1, []) ∷ []) three)
extract_map-Ends_example =
    extract_map-Ends ℕ_discrete (word little 4) (λ v. v < 256 ^ 4)
      (extract_word-IsSafe little 4 (omega arith)) (string little) (All IsByte)
      (extract_string-IsSafe little) little ((1, []) ∷ []) three three-IsReadable

extract_raw-undefined_example :
    ((extract_raw (2 ^ 64 - 1) three).0 ≡ fail undefined) ↔ (2 ^ 64 ≤ 4 + (2 ^ 64 - 1))
extract_raw-undefined_example = extract_raw-undefined (2 ^ 64 - 1) three three-IsValid (omega arith)
