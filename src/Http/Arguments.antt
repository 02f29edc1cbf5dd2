-- ===== src/Http/Arguments.antt =====
-- src/Http.cpp: `Http::parse_argument_list`.
use frnetlib.Base.{
  ℕ, zero, suc, ◌+◌, Bool, ◌||◌, [], ◌∷◌, none, some, Bytes, ◌==◌, if◌then◌else◌, length, take,
  drop,
}
use frnetlib.Base.Text.{find, substr, minus}
use frnetlib.Http.Fields.{Fields}

abbrev pub is_line_end : ℕ → Bool
is_line_end c = c == 10 || c == 13

-- Without the line ends at its end: `while(str[str_size - 1] == '\n' || ...) --str_size`.
unfoldable pub without_line_ends : Bytes → Bytes
without_line_ends [] = []
without_line_ends (c ∷ cs) = elim (without_line_ends cs) [
  | [] ↦ if is_line_end c then [] else c ∷ []
  | d ∷ ds ↦ c ∷ d ∷ ds
]

-- The loop, on the string from `read_index` on, which every place in it is counted from. The value of an argument ends in
-- front of the next `&`; where that stands before the `=`, the subtraction wraps, and it ends with the string.
unfoldable pub arguments_from : ℕ → Bytes → Fields
arguments_from zero str = []
arguments_from (suc fuel) str = elim (find (b'=' ∷ []) str) [
  | none ↦ []
  | some equal_pos ↦ elim (find (b'&' ∷ []) str) [
    | none ↦ (take equal_pos str, without_line_ends (drop (equal_pos + 1) str)) ∷ []
    | some and_pos ↦
        (take equal_pos str, substr (equal_pos + 1) (minus (minus and_pos equal_pos) 1) str)
        ∷ arguments_from fuel (drop (and_pos + 1) str)
  ]
]

-- A question mark in front is skipped. Each round moves on, so the length is fuel enough.
unfoldable pub parse_argument_list : Bytes → Fields
parse_argument_list [] = []
parse_argument_list (c ∷ str) =
    let n = length (c ∷ str) + 1 in
    if c == b'?' then arguments_from n str else arguments_from n (c ∷ str)
