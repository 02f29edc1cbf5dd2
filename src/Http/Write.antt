-- ===== src/Http/Write.antt =====
-- What `construct` of src/HttpRequest.cpp and of src/HttpResponse.cpp share: writing the lines of a header.
use frnetlib.Base.{
  Bool, true, false, [], ◌∷◌, ◌++◌, Option, none, some, Bytes, codes, if◌then◌else◌,
}
use frnetlib.Http.Fields.{Fields, look_up}
use frnetlib.Http.Kinds.{RequestVersion, v1}

abbrev pub line_end : Bytes
line_end = 13 ∷ 10 ∷ []

abbrev pub is_v1 : RequestVersion → Bool
is_v1 v1 = true
is_v1 _ = false

-- A line with a name and a value.
abbrev pub header_line : Bytes → Bytes → Bytes
header_line name value = name ++ codes ": " ++ value ++ line_end

-- The lines of the headers, in the order of iteration.
unfoldable pub header_lines : Fields → Bytes
header_lines [] = []
header_lines ((name, value) ∷ m) = header_line name value ++ header_lines m

abbrev pub is_missing : Option Bytes → Bool
is_missing none = true
is_missing (some v) = false

-- A line that is added where there is no header of its name.
abbrev pub default_line : Bytes → Bytes → Fields → Bytes
default_line key line m = if is_missing (look_up key m) then line else []
