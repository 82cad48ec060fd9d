-- ===== src/Reply/Ptr.antt =====
-- src/lib/ares_parse_ptr_reply.c.
pub mod Total
use c_ares.Base.{
  ℕ, zero, suc, ◌+◌, ◌*◌, ◌≤◌, ◌<◌, ◌≡◌, ◌≢◌, refl, arith, Bool, true, false, not, ◌&&◌, List, [],
  ◌∷◌, ◌++◌, Option, none, some, length, leb, ltb, ◌==◌, if◌then◌else◌, length-concat,
}
use c_ares.Result.{Status, enodata, ebadresp}
use c_ares.Cmd.{Cmd, malloc, malloc_node, lift, index, pure, raise, guard, ◌>>=◌, ◌>>◌}
use c_ares.Cmd.Safe.{
  Safe, Safe-pure, Safe-raise, Safe-lift, Safe-bind, Safe-mono, Safe-if, Safe-guard, Safe-malloc,
  Safe-malloc_node, Safe-index,
}
use c_ares.Wire.Copy.{memcpy, memcpy-Ensures, c_string}
use c_ares.Text.{same_text}
use c_ares.Expand.{expand_name_for_response}
use c_ares.Reply.{c_in, Rr, read_header, read_question, read_rr, each_answer}
use c_ares.Reply.Host.{Hostent, copy_string, copy_string-Safe}
use c_ares.Reply.Total.{
  IsHostError, for_response-Expands, RrInside, read_header-Safe, read_question-Safe, read_rr-Safe,
  each_answer-Safe,
}

abbrev pub t_ptr : ℕ
t_ptr = 12

abbrev pub t_cname : ℕ
t_cname = 5

-- the local variables that the loop changes; `aliascnt` is the length of `aliases`
pub record PtrState : Type 0 where
  pub ptrname : List ℕ
  pub hostname : Option (List ℕ)
  pub aliases : List (List ℕ)
  pub alias_alloc : ℕ

abbrev pub fresh_state : List ℕ → PtrState
fresh_state ptrname = record { ptrname = ptrname; hostname = none; aliases = []; alias_alloc = 8 }

-- A full array of aliases is doubled.
unfoldable pub grow_aliases : PtrState → Cmd PtrState
grow_aliases st =
    if leb st.alias_alloc (length st.aliases)
    then (do
      _ ← malloc (st.alias_alloc * 2 * 8)
      pure (record st { alias_alloc = st.alias_alloc * 2 }))
    else pure st

-- a PTR record for `ptrname`: the new host name, which is an alias too
unfoldable pub ptr_record : List ℕ → ℕ → Rr → PtrState → Cmd PtrState
ptr_record abuf alen rr st = do
  (rr_data, len) ← expand_name_for_response true abuf alen rr.aptr
  lift (index (length st.aliases) st.alias_alloc)
  alias ← copy_string rr_data
  grow_aliases (record st { hostname = some rr_data; aliases = st.aliases ++ alias ∷ [] })

-- a CNAME record: the name that is looked for from here on
unfoldable pub cname_record : List ℕ → ℕ → Rr → PtrState → Cmd PtrState
cname_record abuf alen rr st = do
  (rr_data, len) ← expand_name_for_response true abuf alen rr.aptr
  pure (record st { ptrname = rr_data })

unfoldable pub ptr_answer : List ℕ → ℕ → ℕ → PtrState → Cmd (ℕ × PtrState)
ptr_answer abuf alen aptr st = do
  rr ← read_rr (expand_name_for_response false) abuf alen aptr
  st1 ←
      if rr.rr_class == c_in
        && rr.rr_type == t_ptr
        && same_text (c_string rr.rr_name) (c_string st.ptrname)
      then ptr_record abuf alen rr st
      else pure st
  st2 ←
      if rr.rr_class == c_in && rr.rr_type == t_cname
      then cname_record abuf alen rr st1
      else pure st1
  guard (leb (rr.aptr + rr.rr_len) alen) ebadresp
  pure (rr.aptr + rr.rr_len, st2)

-- `h_addr_list`: a copy of the `addrlen` bytes at `addr`, if both are given
unfoldable pub copy_addr : Option (List ℕ) → ℕ → Cmd (List (List ℕ))
copy_addr none addrlen = pure []
copy_addr (some addr) addrlen =
    if addrlen == 0
    then pure []
    else (do block ← malloc addrlen; q ← lift (memcpy addr 0 addrlen block); pure (q.text ∷ []))

-- The host entry from what the loop has found. The address is copied where its block is allocated,
-- before the array of aliases; nothing reads it between the two places.
unfoldable pub ptr_hostent : Option (List ℕ) → ℕ → ℕ → List (List ℕ) → Option (List ℕ) → Cmd Hostent
ptr_hostent addr addrlen family aliases none = raise enodata
ptr_hostent addr addrlen family aliases (some hostname) = do
  malloc_node
  malloc_node
  addrs ← copy_addr addr addrlen
  _ ← malloc ((length aliases + 1) * 8)
  pure (record {
    h_name = hostname;
    h_aliases = aliases;
    h_addrtype = family;
    h_length = addrlen;
    h_addr_list = addrs;
  })

unfoldable pub parse_ptr_reply : List ℕ → ℕ → Option (List ℕ) → ℕ → ℕ → Cmd Hostent
parse_ptr_reply abuf alen addr addrlen family = do
  ancount ← read_header abuf alen
  (ptrname, aptr) ← read_question (expand_name_for_response false) abuf alen
  _ ← malloc (8 * 8)
  st ← each_answer ancount (ptr_answer abuf alen) aptr (fresh_state ptrname)
  ptr_hostent addr addrlen family st.aliases st.hostname
