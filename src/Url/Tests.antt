-- ===== src/Url/Tests.antt =====
-- A run of the theorem on a URL with all parts.
use frnetlib.Base.{◌≡◌, refl, arith, some, Bytes, codes}
use frnetlib.Url.{
  http, unknown, Url, new_url, scheme_to_string, scheme_string_map, name_of, parse, get_url,
}
use frnetlib.Url.Tail.{with_query}
use frnetlib.Url.RoundTrip.{IsApart, parse-get_url}

abbrev example : Url
example = record {
  scheme = http;
  host = codes "a.b";
  port = codes "81";
  path = codes "/c";
  query = codes "d=e?";
  fragment = codes "f";
}

example-IsApart : IsApart example (codes "http") (codes "c")
unfolding scheme_to_string scheme_string_map name_of
example-IsApart = record {
  known = refl;
  named = refl;
  host_there = omega arith;
  host_plain = (refl, (refl, (refl, tt)));
  port_there = omega arith;
  port_plain = (refl, (refl, tt));
  slash = refl;
  uri = with_query (refl, tt) (refl, (refl, (refl, (refl, tt))));
}

parse-get_url_example :
    (text : Bytes) × (get_url example ≡ some text) × (parse text (new_url unknown) ≡ example)
parse-get_url_example = parse-get_url example (codes "http") (codes "c") unknown example-IsApart
