-- ===== src/Octet/Tests.antt =====
-- Addresses whose last octet is read back.
use equic.Prelude.{◌≡◌, refl, some, codes, arith}
use equic.Net.{InAddr}
use equic.Octet.{
  decimal, inet_ntoa, strncpy, atoi_from, has_nul, find_dot, read_octet, extract_last_octet,
}
use equic.Octet.Extract.{extract_last_octet-inet_ntoa}

abbrev client : InAddr
client = record { a = 192; b = 168; c = 0; d = 217 }

client_text : inet_ntoa client ≡ codes "192.168.0.217"
unfolding inet_ntoa decimal
client_text = refl

octet_read : extract_last_octet (codes "10.1.2.3") ≡ some 3
unfolding extract_last_octet read_octet strncpy atoi_from has_nul find_dot
octet_read = refl

extract_last_octet-inet_ntoa_example : extract_last_octet (inet_ntoa client) ≡ some 217
extract_last_octet-inet_ntoa_example = extract_last_octet-inet_ntoa client (omega arith)
