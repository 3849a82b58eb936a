-- ===== src/Geoip/Cloudflare.antt =====
-- geoip/cloudflare/cloudflare.go. A header value is here its list of runes, so that `TrimSpace` is
-- unicode.IsSpace at both ends; a value of ASCII bytes is the same list.
use mathlib.Core.List.{reverse}
use front_basicrum_go.Base.{
  ℕ, Bytes, [], ◌∷◌, none, some, Bool, ◌||◌, ◌&&◌, leb, ◌==◌, if◌then◌else◌, codes,
}
use front_basicrum_go.Base.Assoc.{lookup}
use front_basicrum_go.Types.{Header}
use front_basicrum_go.Geoip.{Location}

abbrev pub quote : ℕ
quote = b'"'

-- unicode.IsSpace
unfoldable pub is_space : ℕ → Bool
is_space c =
    (leb 9 c && leb c 13)
    || c == 32
    || c == 0x85
    || c == 0xA0
    || c == 0x1680
    || (leb 0x2000 c && leb c 0x200A)
    || c == 0x2028
    || c == 0x2029
    || c == 0x202F
    || c == 0x205F
    || c == 0x3000

unfoldable pub trim_left : Bytes → Bytes
trim_left [] = []
trim_left (c ∷ s) = if is_space c then trim_left s else c ∷ s

unfoldable pub trim_space : Bytes → Bytes
trim_space s = reverse (trim_left (reverse (trim_left s)))

-- `strings.TrimPrefix(s, "\"")`
unfoldable pub trim_prefix : Bytes → Bytes
trim_prefix [] = []
trim_prefix (c ∷ s) = if c == quote then s else c ∷ s

unfoldable pub trim_suffix : Bytes → Bytes
trim_suffix s = reverse (trim_prefix (reverse s))

unfoldable pub cleanup_header_value : Bytes → Bytes
unfolding trim_suffix
cleanup_header_value s = trim_space (trim_suffix (trim_prefix (trim_space s)))

-- `Header.Get`: the empty text where the name is missing.
unfoldable pub header_get : Header → Bytes → Bytes
header_get header name = elim (lookup name header) [ none ↦ [] | some v ↦ v ]

-- The names are written as net/http stores them.
unfoldable pub cloudflare : Header → Bytes → Location
cloudflare header ip = record {
  country = cleanup_header_value (header_get header (codes "Cf-Ipcountry"));
  city = cleanup_header_value (header_get header (codes "Cf-Ipcity"));
  error = none;
}
