-- ===== src/Addr.antt =====
-- src/lib/ares__parse_into_addrinfo.c: the addresses and the aliases of a reply. A list of nodes is
-- a list of values. An expanded name can hold a NUL, since a label of one NUL is not escaped; what
-- reads a name as a C string stops there.
pub mod Total
pub mod Block
pub mod Host
pub mod Ttl
pub mod Parses
pub mod Reply
use c_ares.Base.{
  ℕ, ◌+◌, ◌-◌, Bool, true, false, not, ◌&&◌, ◌||◌, List, [], ◌∷◌, ◌++◌, Option, none, some, leb,
  ◌==◌, if◌then◌else◌,
}
use c_ares.Result.{enodata, ebadresp}
use c_ares.Cmd.{Cmd, malloc_node, lift, pure, guard, ◌>>=◌, ◌>>◌}
use c_ares.Wire.{read32}
use c_ares.Wire.Copy.{c_string, memcpy}
use c_ares.Text.{same_text}
use c_ares.Search.{strdup}
use c_ares.Reply.Ptr.{t_cname}
use c_ares.Expand.{expand_name_for_response}
use c_ares.Reply.{c_in, Rr, read_header, read_question, read_rr, each_answer}

abbrev pub t_a : ℕ
t_a = 1

abbrev pub t_aaaa : ℕ
t_aaaa = 28

pub data Family : Type 0 where
  af_unspec af_inet af_inet6 : Family

-- `sizeof(struct in_addr)` and `sizeof(struct ares_in6_addr)`
abbrev pub addr_size : Family → ℕ
addr_size af_inet = 4
addr_size _ = 16

-- `struct ares_addrinfo_node` with its socket address; the TTL is its bit pattern.
pub record AddrNode : Type 0 where
  pub ai_family : Family
  pub ai_port : ℕ
  pub ai_ttl : ℕ
  pub ai_addr : List ℕ

pub record Cname : Type 0 where
  pub ttl : ℕ
  pub alias : Option (List ℕ)
  pub name : Option (List ℕ)

pub record AddrInfo : Type 0 where
  pub cnames : List Cname
  pub nodes : List AddrNode
  pub name : Option (List ℕ)

-- `ares_append_ai_node`, of the bytes at `p`
unfoldable pub append_ai_node : Family → ℕ → ℕ → List ℕ → ℕ → List AddrNode → Cmd (List AddrNode)
append_ai_node family port ttl abuf p nodes = do
  malloc_node
  malloc_node
  q ← lift (memcpy abuf p (addr_size family) (record { room = addr_size family; text = [] }))
  pure (nodes ++ record { ai_family = family; ai_port = port; ai_ttl = ttl; ai_addr = q.text } ∷ [])

-- the local variables that the loop changes
pub record Found : Type 0 where
  pub hostname : List ℕ
  pub nodes : List AddrNode
  pub cnames : List Cname
  pub got_a : Bool
  pub got_aaaa : Bool
  pub got_cname : Bool

abbrev pub is_record : Rr → ℕ → ℕ → List ℕ → Bool
is_record rr type size hostname =
    rr.rr_class == c_in
    && rr.rr_type == type
    && rr.rr_len == size
    && same_text (c_string rr.rr_name) (c_string hostname)

-- an address of the name that is looked for; the length is tested once more
unfoldable pub addr_record : List ℕ → ℕ → ℕ → ℕ → Rr → Found → Cmd Found
addr_record abuf alen port ttl rr st =
    if is_record rr t_a (addr_size af_inet) st.hostname
    then (do
      guard (leb (rr.aptr + addr_size af_inet) alen) ebadresp
      nodes ← append_ai_node af_inet port ttl abuf rr.aptr st.nodes
      pure (record st { nodes = nodes; got_a = true }))
    else if is_record rr t_aaaa (addr_size af_inet6) st.hostname
    then (do
      guard (leb (rr.aptr + addr_size af_inet6) alen) ebadresp
      nodes ← append_ai_node af_inet6 port ttl abuf rr.aptr st.nodes
      pure (record st { nodes = nodes; got_aaaa = true }))
    else pure st

-- a CNAME record: the name that is looked for from here on
unfoldable pub alias_record : List ℕ → ℕ → ℕ → Rr → Found → Cmd Found
alias_record abuf alen ttl rr st =
    if rr.rr_class == c_in && rr.rr_type == t_cname
    then (do
      (rr_data, len) ← expand_name_for_response true abuf alen rr.aptr
      malloc_node
      pure (record st {
        hostname = rr_data;
        cnames =
            st.cnames ++ record { ttl = ttl; alias = some rr.rr_name; name = some rr_data } ∷ [];
        got_cname = true;
      }))
    else pure st

-- one answer; the TTL stands six bytes before the data
unfoldable pub ai_answer : List ℕ → ℕ → ℕ → ℕ → Found → Cmd (ℕ × Found)
ai_answer abuf alen port aptr st = do
  rr ← read_rr (expand_name_for_response false) abuf alen aptr
  ttl ← lift (read32 abuf (rr.aptr - 6))
  st1 ← addr_record abuf alen port ttl rr st
  st2 ← alias_record abuf alen ttl rr st1
  guard (leb (rr.aptr + rr.rr_len) alen) ebadresp
  pure (rr.aptr + rr.rr_len, st2)

-- `ai->name`, replaced if it is not the same name
unfoldable pub save_name : List ℕ → Option (List ℕ) → Cmd (List ℕ)
save_name question none = strdup (c_string question)
save_name question (some name) =
    if same_text (c_string name) (c_string question) then pure name else strdup (c_string question)

-- what is kept of the records
unfoldable pub save_found : Bool → List ℕ → AddrInfo → Found → Cmd AddrInfo
save_found cname_only_is_enodata question ai st = do
  guard (st.got_a || st.got_aaaa || (st.got_cname && not (st.got_cname && cname_only_is_enodata)))
      enodata
  name ← save_name question ai.name
  pure (record {
    cnames = if st.got_cname then ai.cnames ++ st.cnames else ai.cnames;
    nodes = if st.got_a || st.got_aaaa then ai.nodes ++ st.nodes else ai.nodes;
    name = some name;
  })

abbrev pub nothing_found : List ℕ → Found
nothing_found hostname = record {
  hostname = hostname;
  nodes = [];
  cnames = [];
  got_a = false;
  got_aaaa = false;
  got_cname = false;
}

-- The result is `*ai`. On a failure it is left as it was, but for the name, which is then NULL.
unfoldable pub parse_into_addrinfo : List ℕ → ℕ → Bool → ℕ → AddrInfo → Cmd AddrInfo
parse_into_addrinfo abuf alen cname_only_is_enodata port ai = do
  ancount ← read_header abuf alen
  (question, aptr) ← read_question (expand_name_for_response false) abuf alen
  st ← each_answer ancount (ai_answer abuf alen port) aptr (nothing_found question)
  save_found cname_only_is_enodata question ai st
