-- ===== src/Tests/Replies.antt =====
-- The parsers of replies, on one record each.
use c_ares.Base.{ℕ, ◌+◌, ◌*◌, ◌≤◌, ◌≡◌, ◌≢◌, refl, arith, true, false, List, [], ◌∷◌, length, some}
use c_ares.Result.{ok, fail, enomem, ebadresp}
use c_ares.Cmd.{put, malloc, malloc_node}
use c_ares.Cmd.Safe.{Safe}
use c_ares.Wire.{peek, read16, read32}
use c_ares.Wire.Copy.{memcpy, memset, strncpy, puts}
use c_ares.Text.{tolower, same_text}
use c_ares.Name.{
  is_reservedch, isprint, is_hostnamech, is_indir, indir_offset, is_escaped, char_length,
  label_length, name_length_loop, name_length, expand_char, expand_label, expand_loop, terminate,
}
use c_ares.Expand.{expand_name_validated, expand_name, expand_name_for_response, expand_string}
use c_ares.Reply.{read_header, read_question, read_rr, each_answer}
use c_ares.Reply.Total.{IsHostError}
use c_ares.Reply.Mx.{mx_record, mx_answer, parse_mx_reply}
use c_ares.Reply.Srv.{srv_record, srv_answer, parse_srv_reply}
use c_ares.Reply.Naptr.{naptr_record, naptr_answer, parse_naptr_reply}
use c_ares.Reply.Uri.{uri_record, uri_answer, parse_uri_reply}
use c_ares.Reply.Caa.{caa_record, caa_answer, parse_caa_reply}
use c_ares.Reply.Txt.{txt_loop, txt_answer, parse_txt_reply}
use c_ares.Reply.Soa.{soa_record, soa_loop, parse_soa_reply}
use c_ares.Reply.Host.{copy_string}
use c_ares.Reply.Ns.{ns_record, ns_loop, parse_ns_reply}
use c_ares.Reply.Ptr.{
  ptr_record, cname_record, ptr_answer, grow_aliases, copy_addr, ptr_hostent, parse_ptr_reply,
}
use c_ares.Reply.Parsers.{AllSafe, reply_parsers-AllSafe}
use c_ares.Reply.Ptr.Total.{parse_ptr_reply-Safe}
use c_ares.Tests.Messages.{
  mx_message, srv_message, naptr_message, uri_message, caa_message, txt_message, soa_message,
  ns_message, ptr_message,
}

-- "m.a.b"
abbrev m_a_b : List ℕ
m_a_b = b'm' ∷ b'.' ∷ b'a' ∷ b'.' ∷ b'b' ∷ []

abbrev a_b : List ℕ
a_b = b'a' ∷ b'.' ∷ b'b' ∷ []

-- what every parser computes with
all_shared : ℕ
unfolding put malloc malloc_node peek read16 read32 memcpy memset strncpy puts tolower same_text
    is_reservedch isprint is_hostnamech is_indir indir_offset is_escaped char_length label_length
    name_length_loop name_length expand_char expand_label expand_loop terminate
    expand_name_validated expand_name expand_name_for_response expand_string read_header
    read_question read_rr each_answer copy_string
all_shared = 0

mx_run : parse_mx_reply mx_message 39 [] ≡ ok (record { host = m_a_b; priority = 10 } ∷ [], [])
unfolding all_shared parse_mx_reply mx_answer mx_record
mx_run = refl

-- the second allocation, of the expanded owner name, fails
mx_no_memory : parse_mx_reply mx_message 39 (true ∷ false ∷ []) ≡ fail enomem
unfolding all_shared parse_mx_reply mx_answer mx_record
mx_no_memory = refl

-- the last byte of the host is cut off
mx_cut : parse_mx_reply mx_message 38 [] ≡ fail ebadresp
unfolding all_shared parse_mx_reply mx_answer mx_record
mx_cut = refl

srv_run :
    parse_srv_reply srv_message 41 []
    ≡ ok (record { host = a_b; priority = 1; weight = 2; port = 80 } ∷ [], [])
unfolding all_shared parse_srv_reply srv_answer srv_record
srv_run = refl

naptr_run :
    parse_naptr_reply naptr_message 43 []
    ≡ ok (
      record {
        flags = b'u' ∷ [];
        service = b's' ∷ [];
        regexp = [];
        replacement = [];
        order = 1;
        preference = 2;
      }
          ∷ [],
      [],
    )
unfolding all_shared parse_naptr_reply naptr_answer naptr_record
naptr_run = refl

uri_run :
    parse_uri_reply uri_message 39 []
    ≡ ok (record { priority = 1; weight = 2; uri = b'x' ∷ b'y' ∷ []; ttl = 60 } ∷ [], [])
unfolding all_shared parse_uri_reply uri_answer uri_record
uri_run = refl

caa_run :
    parse_caa_reply caa_message 38 []
    ≡ ok (record { critical = 0; property = b't' ∷ []; value = b'v' ∷ b'w' ∷ [] } ∷ [], [])
unfolding all_shared parse_caa_reply caa_answer caa_record
caa_run = refl

txt_run :
    parse_txt_reply true txt_message 38 []
    ≡ ok (
      record { txt = b'h' ∷ b'i' ∷ []; record_start = true }
          ∷ record { txt = b'x' ∷ []; record_start = false }
          ∷ [],
      [],
    )
unfolding all_shared parse_txt_reply txt_answer txt_loop
txt_run = refl

soa_run :
    parse_soa_reply soa_message 57 []
    ≡ ok (
      record {
        nsname = a_b;
        hostmaster = a_b;
        serial = 1;
        refresh = 2;
        retry = 3;
        expire = 4;
        minttl = 256;
      },
      [],
    )
unfolding all_shared parse_soa_reply soa_loop soa_record
soa_run = refl

ns_run :
    parse_ns_reply ns_message 37 []
    ≡ ok (
      record {
        h_name = a_b;
        h_aliases = (b'n' ∷ b'.' ∷ a_b) ∷ [];
        h_addrtype = 2;
        h_length = 4;
        h_addr_list = [];
      },
      [],
    )
unfolding all_shared parse_ns_reply ns_loop ns_record
ns_run = refl

ptr_run :
    parse_ptr_reply ptr_message 37 (some (127 ∷ 0 ∷ 0 ∷ 1 ∷ [])) 4 2 []
    ≡ ok (
      record {
        h_name = b'p' ∷ b'.' ∷ a_b;
        h_aliases = (b'p' ∷ b'.' ∷ a_b) ∷ [];
        h_addrtype = 2;
        h_length = 4;
        h_addr_list = (127 ∷ 0 ∷ 0 ∷ 1 ∷ []) ∷ [];
      },
      [],
    )
unfolding all_shared parse_ptr_reply ptr_answer ptr_record cname_record grow_aliases copy_addr
    ptr_hostent
ptr_run = refl

reply_parsers-AllSafe_example : AllSafe true soa_message 57
reply_parsers-AllSafe_example = reply_parsers-AllSafe true soa_message 57 (omega arith)

localhost_length : (bytes : List ℕ) → some (127 ∷ 0 ∷ 0 ∷ 1 ∷ []) ≡ some bytes → 4 ≤ length bytes
localhost_length bytes e = ground arith

parse_ptr_reply-Safe_example :
    Safe IsHostError
      (λ host. (host.h_aliases ≢ []) × (11 * length host.h_aliases + 17 ≤ 37))
      (parse_ptr_reply ptr_message 37 (some (127 ∷ 0 ∷ 0 ∷ 1 ∷ [])) 4 2)
parse_ptr_reply-Safe_example =
    parse_ptr_reply-Safe ptr_message 37 (some (127 ∷ 0 ∷ 0 ∷ 1 ∷ [])) 4 2 (omega arith)
      localhost_length
