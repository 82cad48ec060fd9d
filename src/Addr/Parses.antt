-- ===== src/Addr/Parses.antt =====
-- The addresses and the aliases of a well-formed reply, as `ares__parse_into_addrinfo` reads them.
pub mod Step
pub mod Run
use c_ares.Base.{
  ℕ, ◌+◌, ◌≡◌, ◌<◌, ◌≢◌, List, [], ◌∷◌, ◌++◌, length, All, true, false, Bool, not, if◌then◌else◌,
  ◌||◌, ◌==◌, some,
}
use c_ares.Query.Plain.{IsPlainLabel, dotted, encoded}
use c_ares.Name.Plain.{IsAllowed}
use c_ares.Text.{same_text}
use c_ares.Reply.Bytes.{name_bytes, Heading, ttl_value, record_bytes}
use c_ares.Reply.Ptr.{t_cname}
use c_ares.Addr.{t_a, t_aaaa, af_inet, af_inet6, AddrNode, Cname, Found}

-- the data of a record: an address, the name that an alias stands for, or data of another type
pub data Content : Type 0 where
  v4 v6 : List ℕ → Content
  alias : List (List ℕ) → Content
  other : ℕ → List ℕ → Content

pub record Answer : Type 0 where
  pub heading : Heading
  pub content : Content

abbrev pub owner_of : Answer → List ℕ
owner_of a = dotted a.heading.owner

abbrev pub type_of : Content → ℕ
type_of (v4 bytes) = t_a
type_of (v6 bytes) = t_aaaa
type_of (alias ls) = t_cname
type_of (other type bytes) = type

abbrev pub data_length : Content → ℕ
data_length (v4 bytes) = 4
data_length (v6 bytes) = 16
data_length (alias ls) = length (encoded ls) + 1
data_length (other type bytes) = length bytes

abbrev pub data_bytes : Content → List ℕ → List ℕ
data_bytes (v4 bytes) rest = bytes ++ rest
data_bytes (v6 bytes) rest = bytes ++ rest
data_bytes (alias ls) rest = name_bytes ls rest
data_bytes (other type bytes) rest = bytes ++ rest

abbrev pub answer_bytes : Answer → List ℕ → List ℕ
answer_bytes a rest =
    record_bytes a.heading (type_of a.content) (data_length a.content) (data_bytes a.content rest)

-- an address has the size of its family, and an alias stands for a host name
abbrev pub IsContent : Content → Type 0
IsContent (v4 bytes) = length bytes ≡ 4
IsContent (v6 bytes) = length bytes ≡ 16
IsContent (alias ls) = All IsPlainLabel ls × IsAllowed true ls
IsContent (other type bytes) = (type ≢ t_a) × (type ≢ t_aaaa) × (type ≢ t_cname)

pub record IsAnswer (a : Answer) : Type 0 where
  pub owner_plain : All IsPlainLabel a.heading.owner
  pub content_good : IsContent a.content
  pub type_small : type_of a.content < 65536
  pub data_short : data_length a.content < 65536

-- An address is a node if its owner is the name that is looked for.
abbrev pub new_nodes : ℕ → ℕ → Bool → Content → List AddrNode
new_nodes port ttl same (v4 bytes) =
    if same
    then record { ai_family = af_inet; ai_port = port; ai_ttl = ttl; ai_addr = bytes } ∷ []
    else []
new_nodes port ttl same (v6 bytes) =
    if same
    then record { ai_family = af_inet6; ai_port = port; ai_ttl = ttl; ai_addr = bytes } ∷ []
    else []
new_nodes port ttl same _ = []

abbrev pub new_cnames : ℕ → List ℕ → Content → List Cname
new_cnames ttl owner (alias ls) =
    record { ttl = ttl; alias = some owner; name = some (dotted ls) } ∷ []
new_cnames ttl owner _ = []

-- The name that an alias stands for is looked for behind it.
abbrev pub new_name : List ℕ → Content → List ℕ
new_name name (alias ls) = dotted ls
new_name name _ = name

abbrev pub nodes_at : ℕ → List ℕ → Answer → List AddrNode
nodes_at port name a = new_nodes port (ttl_value a.heading) (same_text (owner_of a) name) a.content

abbrev pub cnames_at : Answer → List Cname
cnames_at a = new_cnames (ttl_value a.heading) (owner_of a) a.content

abbrev pub nodes_from : ℕ → List ℕ → List Answer → List AddrNode
nodes_from port name [] = []
nodes_from port name (a ∷ answers) =
    nodes_at port name a ++ nodes_from port (new_name name a.content) answers

abbrev pub cnames_from : List Answer → List Cname
cnames_from [] = []
cnames_from (a ∷ answers) = cnames_at a ++ cnames_from answers

-- What some nodes and some aliases add to what has been found.
pub record Grown (name : List ℕ) (nodes : List AddrNode) (cnames : List Cname) (st st' : Found)
    : Type 0 where
  pub hostname : st'.hostname ≡ name
  pub all_nodes : st'.nodes ≡ st.nodes ++ nodes
  pub all_cnames : st'.cnames ≡ st.cnames ++ cnames
  pub addresses :
      (st'.got_a || st'.got_aaaa) ≡ ((st.got_a || st.got_aaaa) || not (length nodes == 0))
  pub aliases : st'.got_cname ≡ (st.got_cname || not (length cnames == 0))
