-- ===== src/Encoding/Tests.antt =====
-- Runs of the theorems on words.
use frnetlib.Base.{◌≡◌, ◌∷◌, [], arith}
use frnetlib.Encoding.{little, of_big_endian, load, hton}
use frnetlib.Encoding.Wire.{hton-load}

hton-load_example :
    hton little 4 (load little (1 ∷ 2 ∷ 3 ∷ 255 ∷ [])) ≡ of_big_endian 0 (1 ∷ 2 ∷ 3 ∷ 255 ∷ [])
hton-load_example =
    hton-load little (1 ∷ 2 ∷ 3 ∷ 255 ∷ [])
      (omega arith, (omega arith, (omega arith, (omega arith, tt))))
