-- ===== src/Addr/Total.antt =====
-- The addresses of a reply are read inside the message, and have the sizes of their families.
use mathlib.Core.List.{append-nil}
use c_ares.Base.{
  ap, sym, if◌then◌else◌, ℕ, ◌+◌, ◌*◌, ◌-◌, ◌≤◌, ◌<◌, ◌≡◌, refl, arith, Bool, true, false, not,
  ◌&&◌, ◌||◌, List, [], ◌∷◌, ◌++◌, Option, none, some, length, leb, ◌==◌, length-concat, All,
  All-concat,
}
use c_ares.Result.{enodata, ebadresp}
use c_ares.Cmd.Safe.{
  Safe, Safe-pure, Safe-lift, Safe-bind, Safe-relax, Safe-if, Safe-guard, Safe-malloc_node,
}
use c_ares.Wire.{read32-Ensures}
use c_ares.Wire.Copy.{memcpy-Ensures}
use c_ares.Wire.Copy.{c_string}
use c_ares.Text.{same_text}
use c_ares.Search.Total.{strdup-Safe}
use c_ares.Expand.{expand_name_for_response}
use c_ares.Reply.{c_in, Rr}
use c_ares.Reply.Total.{
  IsHostError, for_response-Expands, RrInside, read_header-Safe, read_question-Safe, read_rr-Safe,
  each_answer-Safe,
}
use c_ares.Reply.Ptr.{t_cname}
use c_ares.Addr.{
  t_a, t_aaaa, Family, af_inet, af_inet6, addr_size, AddrNode, Cname, AddrInfo, append_ai_node,
  Found, is_record, addr_record, alias_record, ai_answer, save_name, save_found,
  parse_into_addrinfo,
}

-- a node has as many bytes of address as its family has
abbrev pub IsNode : AddrNode → Type 0
IsNode n = length n.ai_addr ≡ addr_size n.ai_family

-- Each node and each alias took eleven bytes of the message at least, and the flags say what was
-- found.
pub record IsFound (p : ℕ) (st : Found) : Type 0 where
  pub nodes_fit : All IsNode st.nodes
  pub nodes_taken : 11 * length st.nodes + 17 ≤ p
  pub cnames_taken : 11 * length st.cnames + 17 ≤ p
  pub addresses : (st.got_a || st.got_aaaa) ≡ not (length st.nodes == 0)
  pub aliases : st.got_cname ≡ not (length st.cnames == 0)

-- what a reply of `alen` bytes adds
pub record Added (alen : ℕ) (cname_only_is_enodata : Bool) (ai r : AddrInfo) : Type 0 where
  pub nodes : List AddrNode
  pub cnames : List Cname
  pub all_nodes : r.nodes ≡ ai.nodes ++ nodes
  pub all_cnames : r.cnames ≡ ai.cnames ++ cnames
  pub nodes_fit : All IsNode nodes
  pub nodes_inside : 11 * length nodes + 17 ≤ alen
  pub cnames_inside : 11 * length cnames + 17 ≤ alen
  pub not_empty : 0 < length nodes + length cnames
  pub addresses : cname_only_is_enodata ≡ true → 0 < length nodes

module _ (abuf : List ℕ) (alen : ℕ) (inside : alen ≤ length abuf) where
  append_ai_node-Safe :
      (family : Family) (port ttl p : ℕ) (nodes : List AddrNode)
      → p + addr_size family ≤ length abuf
      → All IsNode nodes
      → Safe IsHostError
          (λ ns. All IsNode ns × (length ns ≡ length nodes + 1))
          (append_ai_node family port ttl abuf p nodes)
  unfolding append_ai_node
  append_ai_node-Safe family port ttl p nodes fits good = Safe-bind (Safe-malloc_node tt) λ _ _.
      Safe-bind (Safe-malloc_node tt) λ _ _.
        Safe-bind
          (Safe-lift (
            memcpy-Ensures abuf p (addr_size family) (record { room = addr_size family; text = [] })
              0 fits (omega arith)))
          λ q w.
            Safe-pure
              (All-concat IsNode nodes _ good (omega (arith, w.0, w.1)), length-concat nodes _)

  addr_record-Safe :
      (port ttl p : ℕ) (rr : Rr) (st : Found)
      → RrInside alen p rr
      → IsFound p st
      → Safe IsHostError
          (λ s. IsFound (rr.aptr + rr.rr_len) s × (s.cnames ≡ st.cnames))
          (addr_record abuf alen port ttl rr st)
  unfolding addr_record
  addr_record-Safe port ttl p rr st w i =
      Safe-if (is_record rr t_a 4 st.hostname)
        (λ a. Safe-guard (leb (rr.aptr + 4) alen) ebadresp tt λ fits.
          Safe-bind
            (append_ai_node-Safe af_inet port ttl rr.aptr st.nodes (ground arith) i.nodes_fit)
            λ ns v. Safe-pure (
              record {
                nodes_fit = v.0;
                nodes_taken = omega (arith, v.1, i.nodes_taken);
                cnames_taken = omega (arith, i.cnames_taken);
                addresses = ground (arith, v.1);
                aliases = i.aliases;
              },
              refl,
            ))
        (λ no_a.
          Safe-if (is_record rr t_aaaa 16 st.hostname)
            (λ a. Safe-guard (leb (rr.aptr + 16) alen) ebadresp tt λ fits.
              Safe-bind
                (append_ai_node-Safe af_inet6 port ttl rr.aptr st.nodes (ground arith) i.nodes_fit)
                λ ns v. Safe-pure (
                  record {
                    nodes_fit = v.0;
                    nodes_taken = omega (arith, v.1, i.nodes_taken);
                    cnames_taken = omega (arith, i.cnames_taken);
                    addresses = ground (arith, v.1);
                    aliases = i.aliases;
                  },
                  refl,
                ))
            (λ no_aaaa. Safe-pure (
              record {
                nodes_fit = i.nodes_fit;
                nodes_taken = omega (arith, i.nodes_taken);
                cnames_taken = omega (arith, i.cnames_taken);
                addresses = i.addresses;
                aliases = i.aliases;
              },
              refl,
            )))

  alias_record-Safe :
      (ttl p : ℕ) (rr : Rr) (st : Found)
      → RrInside alen p rr
      → 11 * length st.cnames + 17 ≤ p
      → IsFound (rr.aptr + rr.rr_len) st
      → Safe IsHostError (IsFound (rr.aptr + rr.rr_len)) (alias_record abuf alen ttl rr st)
  unfolding alias_record
  alias_record-Safe ttl p rr st w t i =
      Safe-if (rr.rr_class == c_in && rr.rr_type == t_cname)
        (λ c. Safe-bind (for_response-Expands true abuf alen inside rr.aptr) λ x _.
          Safe-bind (Safe-malloc_node tt) λ _ _.
            let size =
              length-concat st.cnames
                (record { ttl = ttl; alias = some rr.rr_name; name = some x.0 }) in
            Safe-pure (record {
              nodes_fit = i.nodes_fit;
              nodes_taken = i.nodes_taken;
              cnames_taken = omega (arith, size, t);
              addresses = i.addresses;
              aliases = ground (arith, size);
            }))
        (λ _. Safe-pure i)

  ai_answer-Safe :
      (port p : ℕ) (st : Found)
      → (p ≤ alen) × IsFound p st
      → Safe IsHostError (λ x. (x.0 ≤ alen) × IsFound x.0 x.1) (ai_answer abuf alen port p st)
  unfolding ai_answer
  ai_answer-Safe port p st i =
      Safe-bind
        (read_rr-Safe abuf alen inside tt (expand_name_for_response false) p
          (for_response-Expands false abuf alen inside))
        λ rr w. Safe-bind (Safe-lift (read32-Ensures abuf (rr.aptr - 6) (omega arith))) λ ttl _.
          Safe-bind (addr_record-Safe port ttl p rr st w i.1) λ st1 u.
            Safe-bind
              (alias_record-Safe ttl p rr st1 w (omega (arith, i.1.cnames_taken, ap length u.1))
                u.0)
              λ st2 v.
                Safe-guard (leb (rr.aptr + rr.rr_len) alen) ebadresp tt
                  λ _. Safe-pure (omega arith, v)

save_name-Safe :
    (question : List ℕ) (name : Option (List ℕ))
    → Safe IsHostError (λ _. Unit {0}) (save_name question name)
unfolding save_name
save_name-Safe question none = Safe-relax (strdup-Safe (c_string question)) λ s e. rw e tt
save_name-Safe question (some name) =
    Safe-if (same_text (c_string name) (c_string question)) (λ _. Safe-pure tt)
      (λ _. Safe-relax (strdup-Safe (c_string question)) λ s e. rw e tt)

-- a list that is kept only if a flag says that it is not empty
kept :
    {A : Type 0} (flag : Bool) (xs ys : List A)
    → flag ≡ not (length ys == 0)
    → (if flag then xs ++ ys else xs) ≡ xs ++ ys
kept true xs ys e = refl
kept false xs [] e = sym (append-nil xs)
kept false xs (y ∷ ys) e = absurd (ground arith)

save_found-Safe :
    (alen p : ℕ) (cname_only_is_enodata : Bool) (question : List ℕ) (ai : AddrInfo) (st : Found)
    → p ≤ alen
    → IsFound p st
    → Safe IsHostError
        (Added alen cname_only_is_enodata ai)
        (save_found cname_only_is_enodata question ai st)
unfolding save_found
save_found-Safe alen p only question ai st le i =
    Safe-guard (st.got_a || st.got_aaaa || (st.got_cname && not (st.got_cname && only))) enodata tt
      λ some_found. Safe-bind (save_name-Safe question ai.name) λ name _. Safe-pure (record {
        nodes = st.nodes;
        cnames = st.cnames;
        all_nodes = kept (st.got_a || st.got_aaaa) ai.nodes st.nodes i.addresses;
        all_cnames = kept st.got_cname ai.cnames st.cnames i.aliases;
        nodes_fit = i.nodes_fit;
        nodes_inside = omega (arith, i.nodes_taken);
        cnames_inside = omega (arith, i.cnames_taken);
        not_empty = ground (arith, i.addresses, i.aliases);
        addresses = λ e. ground (arith, i.addresses);
      })

pub parse_into_addrinfo-Safe :
    (abuf : List ℕ) (alen : ℕ) (cname_only_is_enodata : Bool) (port : ℕ) (ai : AddrInfo)
    → alen ≤ length abuf
    → Safe IsHostError
        (Added alen cname_only_is_enodata ai)
        (parse_into_addrinfo abuf alen cname_only_is_enodata port ai)
unfolding parse_into_addrinfo
parse_into_addrinfo-Safe abuf alen only port ai inside =
    Safe-bind (read_header-Safe abuf alen inside tt) λ ancount _.
      Safe-bind
        (read_question-Safe abuf alen inside tt (expand_name_for_response false)
          (for_response-Expands false abuf alen inside))
        λ question q.
          Safe-bind
            (each_answer-Safe (λ p st. (p ≤ alen) × IsFound p st) ancount _ question.1 _
              (ai_answer-Safe abuf alen inside port)
              (
                q.1,
                record {
                  nodes_fit = tt;
                  nodes_taken = omega arith;
                  cnames_taken = omega arith;
                  addresses = refl;
                  aliases = refl;
                },
              ))
            λ st w. save_found-Safe alen w.0 only question.0 ai st w.1.0 w.1.1
