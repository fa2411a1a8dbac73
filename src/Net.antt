-- ===== src/Net.antt =====
-- Words of network headers: `struct ethhdr`, `struct iphdr`, `struct udphdr` (Linux uapi) and the
-- `__be32` addresses that src/equic_kern.c and src/equic_user.c use as map keys.
use equic.Prelude.{ℕ, ◌+◌, ◌*◌, ◌<◌, ◌≡◌, arith, Option, some, Bytes, get_elem?}

abbrev pub size_of_ethhdr : ℕ
size_of_ethhdr = 14

abbrev pub size_of_iphdr : ℕ
size_of_iphdr = 20

abbrev pub size_of_udphdr : ℕ
size_of_udphdr = 8

abbrev pub ipproto_udp : ℕ
ipproto_udp = 17

-- `struct in_addr`: the address as its four bytes in network order.
pub record InAddr : Type 0 where
  pub a : ℕ
  pub b : ℕ
  pub c : ℕ
  pub d : ℕ

pub record IsAddr (addr : InAddr) : Type 0 where
  pub a_byte : addr.a < 256
  pub b_byte : addr.b < 256
  pub c_byte : addr.c < 256
  pub d_byte : addr.d < 256

-- The four bytes read as one 32-bit word by a little-endian host, with no `ntohl`.
unfoldable pub be32 : InAddr → ℕ
be32 i = i.a + 256 * i.b + 65536 * i.c + 16777216 * i.d

pub be32-injective : {i j : InAddr} → IsAddr i → IsAddr j → be32 i ≡ be32 j → i ≡ j
unfolding be32
be32-injective {i} {j} hi hj e = ground arith

infixl 5 ◌>>=◌
abbrev pub ◌>>=◌ {ℓ κ} : {A : Type ℓ} {B : Type κ} → Option A → (A → Option B) → Option B
m >>= f = elim m [ Option.none ↦ Option.none | some a ↦ f a ]

-- A load of four bytes at an offset; `none` is a read outside the packet.
unfoldable pub load_addr : Bytes → ℕ → Option InAddr
load_addr p off = do
  a ← get_elem? p off
  b ← get_elem? p (off + 1)
  c ← get_elem? p (off + 2)
  d ← get_elem? p (off + 3)
  some (record { a = a; b = b; c = c; d = d })
