-- ===== src/Ctl/Texts.antt =====
-- The texts that a user types: mods/ctl/src/utils.ts.
use Prim.Native.Char.{code}
use routr.Prelude.{
  String, not, ◌&&◌, List, map, ◌==◌, nat_eq, string_eq, filter, head?, get_elem?, split,
  if◌then◌else◌, is_space, trim_start,
}
use routr.Validations.Checks.{Header}

abbrev trim_end : String → String
trim_end String.[] = ""
trim_end (String.◌∷◌ c s) =
    let rest = trim_end s in if rest == "" && is_space (code c) then "" else String.◌∷◌ c rest

abbrev pub trim : String → String
trim s = trim_end (trim_start s)

unfoldable pub string_to_acl : String → List String
unfolding split
string_to_acl acl_rule = map trim (split b',' acl_rule)

abbrev header_of : String → Header
unfolding split
header_of header = record {
  name = head? (split b':' header);
  value = get_elem? (split b':' header) 1;
}

unfoldable pub string_to_headers : String → List Header
unfolding split
string_to_headers headers =
    map header_of (filter (λ header. not (header == "")) (split b',' headers))
