-- ===== src/Http/Tests.antt =====
-- Runs of the theorems on the strings of HTTP.
use frnetlib.Base.{◌≡◌, refl, arith, [], ◌∷◌, true, Bytes, IsByte, All, codes}
use frnetlib.Http.{url_encode, url_decode, encode_char, is_unescaped}
use frnetlib.Base.{if◌then◌else◌}
use frnetlib.Base.Text.{same_bytes, to_lower}
use frnetlib.Http.Fields.{put, value_of, value_of-put}
use frnetlib.Http.Escape.{IsText, url_decode-url_encode, url_encode-IsText}
use frnetlib.Http.Split.{fields, parts}

abbrev query : Bytes
query = codes "a b%"

query-IsByte : All IsByte query
query-IsByte = (omega arith, (omega arith, (omega arith, (omega arith, tt))))

url_encode-query : url_encode query ≡ codes "a+b%25"
unfolding url_encode encode_char is_unescaped
url_encode-query = refl

url_decode-url_encode_example : url_decode (url_encode query) ≡ query
url_decode-url_encode_example = url_decode-url_encode query query-IsByte

url_encode-IsText_example : All IsText (url_encode query)
url_encode-IsText_example = url_encode-IsText query query-IsByte

-- What that is.
gzip_parts : parts true (fields b',' (codes "gzip,, chunked")) ≡ codes "gzip" ∷ codes "chunked" ∷ []
gzip_parts = refl

value_of-put_example : value_of (codes "ACCEPT") (put (codes "Accept") (codes "*") []) ≡ (
    if same_bytes (to_lower (codes "Accept")) (to_lower (codes "ACCEPT"))
    then codes "*"
    else value_of (codes "ACCEPT") [])
value_of-put_example = value_of-put (codes "ACCEPT") (codes "Accept") (codes "*") []
