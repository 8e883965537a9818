-- ===== src/Ipam/Bytes.antt =====
-- `htonl` and `ntohl` on a little-endian machine, as internal/ipam/ipam_manager.c uses them.
use sirah_c.Prelude.{ℕ, ◌+◌, ◌*◌, ◌/◌, ◌%◌, ◌<◌, ◌≡◌, arith}

-- The four bytes of a `uint32_t` in reverse.
unfoldable pub htonl : ℕ → ℕ
htonl x = x % 256 * 16777216 + x / 256 % 256 * 65536 + x / 65536 % 256 * 256 + x / 16777216 % 256

unfoldable pub ntohl : ℕ → ℕ
unfolding htonl
ntohl x = htonl x

pub ntohl-htonl : (x : ℕ) → x < 4294967296 → ntohl (htonl x) ≡ x
unfolding ntohl
ntohl-htonl x h = omega arith

pub htonl-injective : (x y : ℕ) → x < 4294967296 → y < 4294967296 → htonl x ≡ htonl y → x ≡ y
unfolding htonl
htonl-injective x y h k e = omega arith
