-- ===== src/Reply/Parsers.antt =====
-- The parsers of src/lib/ares_parse_*_reply.c that return lists of records or of names, together.
use c_ares.Base.{ℕ, ◌+◌, ◌*◌, ◌≤◌, ◌≢◌, Bool, List, length}
use c_ares.Cmd.Safe.{Safe}
use c_ares.Reply.Total.{IsReplyError, IsHostError}
use c_ares.Reply.Caa
use c_ares.Reply.Caa.{parse_caa_reply, parse_caa_reply-Safe}
use c_ares.Reply.Mx.{parse_mx_reply, parse_mx_reply-Safe}
use c_ares.Reply.Naptr.{parse_naptr_reply, parse_naptr_reply-Safe}
use c_ares.Reply.Ns.{parse_ns_reply, parse_ns_reply-Safe}
use c_ares.Reply.Soa.{parse_soa_reply, parse_soa_reply-Safe}
use c_ares.Reply.Srv.{parse_srv_reply, parse_srv_reply-Safe}
use c_ares.Reply.Txt
use c_ares.Reply.Txt.{parse_txt_reply, parse_txt_reply-Safe}
use c_ares.Reply.Uri.{parse_uri_reply, parse_uri_reply-Safe}

-- what each of them does with a message
pub record AllSafe (ex : Bool) (abuf : List ℕ) (alen : ℕ) : Type 0 where
  pub mx : Safe IsReplyError (λ replies. 13 * length replies + 17 ≤ alen) (parse_mx_reply abuf alen)
  pub srv :
      Safe IsReplyError (λ replies. 17 * length replies + 17 ≤ alen) (parse_srv_reply abuf alen)
  pub uri :
      Safe IsReplyError (λ replies. 16 * length replies + 17 ≤ alen) (parse_uri_reply abuf alen)
  pub naptr :
      Safe IsReplyError (λ replies. 18 * length replies + 17 ≤ alen) (parse_naptr_reply abuf alen)
  pub caa :
      Safe IsReplyError (λ replies. Caa.weight replies + 17 ≤ alen) (parse_caa_reply abuf alen)
  pub txt :
      Safe IsReplyError (λ replies. Txt.weight replies + 17 ≤ alen) (parse_txt_reply ex abuf alen)
  pub ns :
      Safe IsHostError
        (λ host. (length host.h_aliases ≢ 0) × (11 * length host.h_aliases + 17 ≤ alen))
        (parse_ns_reply abuf alen)
  pub soa : Safe IsHostError (λ _. 50 ≤ alen) (parse_soa_reply abuf alen)

-- For an `alen` up to the size of the message's block, whatever the bytes of the message and the
-- answers of the allocator, the parsers of MX, SRV, URI, NAPTR, CAA, TXT, NS and SOA replies end
-- with no access outside the message, their blocks or the array of name servers. The first six
-- fail with one of ARES_ENODATA, ARES_EBADNAME, ARES_EBADRESP, ARES_ENOMEM and ARES_EBADSTR; the
-- two others with ARES_ENODATA, ARES_EBADRESP or ARES_ENOMEM. What they return is paid for by the
-- message: 17 bytes, and for each record 13 (MX), 17 (SRV), 16 (URI) or 18 (NAPTR), or the
-- records' properties and values with 13 bytes each (CAA), or the substrings with a length byte
-- each (TXT); NS has at least one name server, and eleven bytes for each; SOA returns a record,
-- from 50 bytes at least.
pub reply_parsers-AllSafe :
    (ex : Bool) (abuf : List ℕ) (alen : ℕ) → alen ≤ length abuf → AllSafe ex abuf alen
reply_parsers-AllSafe ex abuf alen inside = record {
  mx = parse_mx_reply-Safe abuf alen inside;
  srv = parse_srv_reply-Safe abuf alen inside;
  uri = parse_uri_reply-Safe abuf alen inside;
  naptr = parse_naptr_reply-Safe abuf alen inside;
  caa = parse_caa_reply-Safe abuf alen inside;
  txt = parse_txt_reply-Safe ex abuf alen inside;
  ns = parse_ns_reply-Safe abuf alen inside;
  soa = parse_soa_reply-Safe abuf alen inside;
}
