-- ===== src/Create.antt =====
-- src/lib/ares_create_query.c: `ares_create_query`.
pub mod RoundTrip
pub mod Total
use c_ares.Base.{ℕ, ◌+◌, Bool, not, List, length, leb, ◌==◌, if◌then◌else◌}
use c_ares.Result.{enotfound, ebadname}
use c_ares.Cmd.{Cmd, malloc, lift, pure, guard, ◌>>=◌, ◌>>◌}
use c_ares.Text.{is_onion_domain}
use c_ares.Query.{maxcdname, ednsfixedsz, write_query}
use c_ares.Reply.{hfixedsz, qfixedsz}

abbrev pub edns_size : ℕ → ℕ
edns_size max_udp_size = if max_udp_size == 0 then 0 else ednsfixedsz

-- The result is the message in `*bufp`, of `*buflenp` bytes.
unfoldable pub create_query : List ℕ → ℕ → ℕ → ℕ → Bool → ℕ → Cmd (List ℕ)
create_query name dnsclass type id rd max_udp_size = do
  guard (not (is_onion_domain name)) enotfound
  buf ← malloc (length name + 2 + hfixedsz + qfixedsz + edns_size max_udp_size)
  q ← lift (write_query name dnsclass type id rd max_udp_size buf)
  guard (leb (length q.text) (maxcdname + hfixedsz + qfixedsz + edns_size max_udp_size)) ebadname
  pure q.text
