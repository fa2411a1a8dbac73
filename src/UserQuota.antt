-- ===== src/UserQuota.antt =====
-- http_server.c, the quota kept in user space: `Quotas`, `inc_quota`, `dec_quota` and
-- `reached_quota_limit`. An `int` is its 32 bits. The array is a function of the index, which is an
-- octet of an address. Each function holds `QuotasLock` from its first access to its last.
use equic.Prelude.{
  ℕ, ◌+◌, ◌-◌, ◌%◌, ◌^◌, ◌≡◌, Bool, ◌&&◌, Option, some, leb, ltb, ◌==◌, if◌then◌else◌,
}
use equic.Net.{InAddr, IsAddr, ◌>>=◌}
use equic.Octet.{inet_ntoa, extract_last_octet}
use equic.Octet.Extract.{extract_last_octet-inet_ntoa}

abbrev pub Quotas : Type 0
Quotas = ℕ → ℕ

-- QUOTA_LIMIT
abbrev pub quota_limit : ℕ
quota_limit = 5

abbrev pub add_int : ℕ → ℕ
add_int v = (v + 1) % 2 ^ 32

abbrev pub write : Quotas → ℕ → ℕ → Quotas
write quotas i v j = if i == j then v else quotas j

abbrev pub octet_of : InAddr → Option ℕ
octet_of peer = extract_last_octet (inet_ntoa peer)

-- `Quotas[octet] >= QUOTA_LIMIT`, on signed values.
abbrev pub at_limit : ℕ → Bool
at_limit v = leb quota_limit v && ltb v (2 ^ 31)

-- `Quotas[octet] > 0`, on signed values.
abbrev pub is_positive : ℕ → Bool
is_positive v = ltb 0 v && ltb v (2 ^ 31)

pub inc_quota : Quotas → InAddr → Option Quotas
inc_quota quotas peer = do octet ← octet_of peer; some (write quotas octet (add_int (quotas octet)))

pub dec_quota : Quotas → InAddr → Option Quotas
dec_quota quotas peer = do
  octet ← octet_of peer
  some (if is_positive (quotas octet) then write quotas octet (quotas octet - 1) else quotas)

pub reached_quota_limit : Quotas → InAddr → Option Bool
reached_quota_limit quotas peer = do octet ← octet_of peer; some (at_limit (quotas octet))

-- On an address the three functions act on the entry of its last octet.
module _ (quotas : Quotas) (peer : InAddr) (h : IsAddr peer) where
  pub inc_quota_lem : inc_quota quotas peer ≡ some (write quotas peer.d (add_int (quotas peer.d)))
  unfolding inc_quota
  inc_quota_lem = rw (extract_last_octet-inet_ntoa peer h)

  pub dec_quota_lem :
      dec_quota quotas peer
      ≡ some
          (if is_positive (quotas peer.d) then write quotas peer.d (quotas peer.d - 1) else quotas)
  unfolding dec_quota
  dec_quota_lem = rw (extract_last_octet-inet_ntoa peer h)

  pub reached_quota_limit_lem : reached_quota_limit quotas peer ≡ some (at_limit (quotas peer.d))
  unfolding reached_quota_limit
  reached_quota_limit_lem = rw (extract_last_octet-inet_ntoa peer h)
