-- ===== src/Base64/Tests.antt =====
-- Runs of the theorems on Base64.
use frnetlib.Base.{
  ◌<◌, ◌≡◌, ◌↔◌, refl, arith, ◌∷◌, [], none, some, Bytes, length, codes, ◌+◌, ◌*◌, ◌/◌,
}
use frnetlib.Base64.{
  encode, at, encode_from, in_loop, first, second, third, fourth, second_alone, third_alone,
}
use frnetlib.Base64.Decode.{decode}
use frnetlib.Base64.RoundTrip.{decode-encode, encode-undefined}

abbrev hello : Bytes
hello = codes "hello"

encode-hello : encode hello ≡ some (codes "aGVsbG8=")
unfolding encode encode_from in_loop at first second third fourth second_alone third_alone
encode-hello = refl

decode-encode_example :
    (out : Bytes) × (encode hello ≡ some out)
    × (decode out ≡ some hello)
    × (length out ≡ (length hello + 2) / 3 * 4)
decode-encode_example =
    decode-encode hello
      (omega arith, (omega arith, (omega arith, (omega arith, (omega arith, tt))))) (omega arith)
      (omega arith)

encode-undefined_example : (encode (104 ∷ []) ≡ none) ↔ (1 < 2)
encode-undefined_example = encode-undefined (104 ∷ []) (omega arith, tt) (omega arith)
