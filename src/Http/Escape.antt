-- ===== src/Http/Escape.antt =====
-- `url_encode` and `url_decode`.
use frnetlib.Base.{
  ℕ, ◌≡◌, refl, ap, ◌∙◌, arith, Bool, true, false, not, ◌&&◌, ◌||◌, [], ◌∷◌, ◌++◌, Bytes, IsByte,
  All, All-append, ◌==◌,
}
use frnetlib.Base.Bits.{holds_below, holds_below-at}
use frnetlib.Http.{
  is_unescaped, encode_char, url_encode, hex_value, hex_byte, plain_char, url_decode,
}

-- What can stand in the text: characters that stay as they are, '+' and '%'.
abbrev pub is_text : ℕ → Bool
is_text c = is_unescaped c || c == b'+' || c == b'%'

-- A byte's code is one character that is not '%' and decodes to it, or '%' and two digits that do.
abbrev decodes_to : ℕ → Bytes → Bool
decodes_to b [] = false
decodes_to b (c ∷ []) = not (c == b'%') && plain_char c == b && is_text c
decodes_to b (c ∷ d ∷ []) = false
decodes_to b (c ∷ d ∷ e ∷ []) = c == b'%' && hex_byte d e == b && (is_text d && is_text e)
decodes_to b (c ∷ d ∷ e ∷ f ∷ rest) = false

abbrev code_decodes : ℕ → Bool
code_decodes b = decodes_to b (encode_char b)

code_table : holds_below code_decodes 256 ≡ true
unfolding holds_below encode_char is_unescaped plain_char hex_byte hex_value
code_table = refl

url_decode-plain :
    (c : ℕ) (rest : Bytes)
    → (c == b'%') ≡ false
    → url_decode (c ∷ rest) ≡ plain_char c ∷ url_decode rest
unfolding url_decode
url_decode-plain c [] h = refl
url_decode-plain c (d ∷ []) h = rw h
url_decode-plain c (d ∷ e ∷ rest) h = rw h

url_decode-code :
    (b : ℕ) (code rest : Bytes)
    → decodes_to b code ≡ true
    → url_decode (code ++ rest) ≡ b ∷ url_decode rest
url_decode-code b (c ∷ []) rest h =
    url_decode-plain c rest (ground arith) ∙ ap (λ t. t ∷ url_decode rest) (ground arith)
url_decode-code b (c ∷ d ∷ e ∷ []) rest h = unfold url_decode in ground arith
url_decode-code b [] rest h = cc
url_decode-code b (c ∷ d ∷ []) rest h = cc
url_decode-code b (c ∷ d ∷ e ∷ f ∷ more) rest h = cc

-- What was encoded is decoded to the bytes that it was.
pub url_decode-url_encode : (str : Bytes) → All IsByte str → url_decode (url_encode str) ≡ str
unfolding url_encode
url_decode-url_encode [] v = unfold url_decode in refl
url_decode-url_encode (c ∷ cs) v =
    url_decode-code c (encode_char c) (url_encode cs) (holds_below-at code_decodes v.0 code_table)
    ∙ ap (λ t. c ∷ t) (url_decode-url_encode cs v.1)

abbrev pub IsText : ℕ → Type 0
IsText c = is_text c ≡ true

code-IsText : (b : ℕ) (code : Bytes) → decodes_to b code ≡ true → All IsText code
code-IsText b [] h = tt
code-IsText b (c ∷ []) h = (ground arith, tt)
code-IsText b (c ∷ d ∷ []) h = cc
code-IsText b (c ∷ d ∷ e ∷ []) h = (ground arith, (ground arith, (ground arith, tt)))
code-IsText b (c ∷ d ∷ e ∷ f ∷ rest) h = cc

-- The text that `url_encode` makes of bytes has only characters that stay as they are, '+' and '%'.
pub url_encode-IsText : (str : Bytes) → All IsByte str → All IsText (url_encode str)
unfolding url_encode
url_encode-IsText [] v = tt
url_encode-IsText (c ∷ cs) v =
    All-append IsText (encode_char c) (url_encode cs)
      (code-IsText c (encode_char c) (holds_below-at code_decodes v.0 code_table))
      (url_encode-IsText cs v.1)
